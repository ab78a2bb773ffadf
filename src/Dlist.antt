-- ===== src/Dlist.antt =====
-- The doubly linked list of utils/ as the program uses it: the calls of cdsl_dlist.h and base_list.h
-- that mpegts_parser.c and hls_parser.c make, on an entry of type `E` that links nodes of type `A`.
-- The library is not modelled; its operations are the fields of a record, with what its interface
-- says of them: an entry holds a sequence of nodes.
use mpegts_reader.Common.{ℕ, ◌≡◌, ◌↔◌, Bool, true, Option, some, List, [], ◌∷◌, ◌++◌, length}

pub record Dlist (E A : Type 0) : Type 0 where
  pub entry_init : E  -- cdsl_dlistEntryInit
  pub put_tail : E → A → E  -- cdsl_dlistPutTail
  pub is_empty : E → Bool  -- cdsl_dlistIsEmpty
  pub dequeue : E → Option (A × E)  -- cdsl_dlistDequeue, `none` for NULL
  pub size : E → ℕ  -- cdsl_dlistSize
  -- the nodes that cdsl_iterInit, cdsl_iterHasNext and cdsl_iterNext go through, in their order
  pub nodes : E → List A
  -- the same entry after writes into its nodes, through the pointers that the iterator hands out
  pub with_nodes : E → List A → E

-- What the program relies on.
pub record IsDlist {E A : Type 0} (l : Dlist E A) : Type 0 where
  pub nodes-entry_init : l.nodes l.entry_init ≡ []
  pub nodes-put_tail : (e : E) (a : A) → l.nodes (l.put_tail e a) ≡ l.nodes e ++ (a ∷ [])
  pub is_empty_iff : (e : E) → (l.is_empty e ≡ true) ↔ (l.nodes e ≡ [])
  pub dequeue-cons :
      (e : E) (a : A) (xs : List A)
      → l.nodes e ≡ a ∷ xs
      → (e' : E) × (l.dequeue e ≡ some (a, e')) × (l.nodes e' ≡ xs)
  pub size-nodes : (e : E) → l.size e ≡ length (l.nodes e)
  pub nodes-with_nodes :
      (e : E) (xs : List A) → length xs ≡ length (l.nodes e) → l.nodes (l.with_nodes e xs) ≡ xs
