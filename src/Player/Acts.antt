-- ===== src/Player/Acts.antt =====
-- How a call that returns differs from one that waits: lemmas on the results of the player's functions.
use mpegts_reader.Common.{◌≡◌, ◌≢◌}
use mpegts_reader.Player.{Act, returns, waits}

pub returns-injective : {A : Type 0} {a b : A} → returns a ≡ returns b → a ≡ b
returns-injective e = cc

pub waits-ne-returns : {A : Type 0} {m : Act A} {a : A} → m ≡ waits → m ≢ returns a
waits-ne-returns known e = cc
