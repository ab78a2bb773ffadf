-- ===== src/Player/Submit.antt =====
-- `gst_player_play` on the pool: what it does on every branch, and what a worker then finds.
use mpegts_reader.Common.{
  ℕ, ◌+◌, ◌≤◌, ◌<◌, ◌≡◌, ◌≢◌, ◌↔◌, ◌⊎◌, inl, inr, refl, sym, ◌∙◌, Bool, true, false, Bool-cases,
  ◌==◌, ==_iff, ltb, if◌then◌else◌, [], ◌∷◌, length, get_elem?, get_elem?-set_self, set, some,
  arith,
}
use mpegts_reader.Common.Integers.{ℤ, pos, negsuc}
use mpegts_reader.Common.Outcome.{done}
use mpegts_reader.ThreadPool.{ThreadPool, next_task, task_state_run}
use mpegts_reader.ThreadPool.Queue.{next_task-thread_pool_submit}
use mpegts_reader.Player.{
  Player, PlayTask, Act, returns, waits, undefined, gst_task_state_idle, gst_player_seek,
}
use mpegts_reader.Player.Calls.{parse_launch, object_unref, element_seek}
use mpegts_reader.Player.Play.{
  Request, command, play_command, gst_player_play, task_pointer, callback_pointer,
}
use mpegts_reader.Player.Starts.{
  started_task, IsPlayer, next_slot, next_slot_lt, refused_player, accepted_player, play_container,
  start_idle, start_busy, start_locked, submit_started, fits_buffer,
}

returns-ne-undefined : {A : Type 0} {a : A} → returns a ≢ undefined
returns-ne-undefined e = cc

waits-ne-undefined : {A : Type 0} → ◌≢◌ {A = Act A} waits undefined
waits-ne-undefined e = cc

module _ (pipeline : ℕ) (player : Player) (request : Request) (task : PlayTask)
    (is_player : IsPlayer player) (at : get_elem? player.tasks (next_slot player) ≡ some task) where
  play_command_lem :
      task.locked ≡ false
      → task.state ≡ gst_task_state_idle
      → ((player.pool.size ≡ 1)
          × (play_command pipeline player request
              ≡ returns (
                refused_player pipeline request task player,
                (parse_launch (command request.uri) ∷ object_unref pipeline ∷ [], negsuc 0),
              )))
        ⊎ ((player.pool.size ≡ 0)
            × (n : ℕ) × (pool pool' : ThreadPool) × (play_command pipeline player request
                ≡ returns (
                  accepted_player pipeline request task player pool,
                  (parse_launch (command request.uri) ∷ [], pos player.id),
                ))
            × (next_task pool ≡ done (some (pool', n, true)))
            × (get_elem? pool'.tasks n
                ≡ some (record (play_container player) { state = task_state_run })))
  play_command_lem free idle =
      let begun = start_idle pipeline player request task is_player at free idle in
      let not_null : task_pointer (next_slot player) ≢ 0 = λ e. omega (arith, e) in
      elim (next_task-thread_pool_submit player.pool (task_pointer (next_slot player))
        callback_pointer (pos 0) is_player.pool not_null) [
          | inl (one_waits, full) ↦ inl (
            one_waits,
            begun
                ∙ rw
                    (submit_started pipeline player request task is_player at player.pool (negsuc 0)
                      full)
                    refl,
          )
          | inr (none_waits, n, pool, pool', yes_n, takes, holds) ↦ inr (
            none_waits,
            n,
            pool,
            pool',
            begun
                ∙ rw (submit_started pipeline player request task is_player at pool (pos n) yes_n)
                    refl,
            takes,
            holds,
          )
        ]

  -- For an idle task whose lock is free, in a player in use, and a uri that fits the buffer,
  -- `gst_player_play` either finds a task waiting in the pool: it drops the new pipeline, leaves the task
  -- idle and returns -1; or it finds none, starts the task and returns the play's id, and the next worker
  -- takes a container with this task and `play_task_callback`.
  pub gst_player_play_lem :
      task.locked ≡ false
      → task.state ≡ gst_task_state_idle
      → length (command request.uri) < 255
      → ((player.pool.size ≡ 1)
          × (gst_player_play pipeline player request
              ≡ returns (
                refused_player pipeline request task player,
                (parse_launch (command request.uri) ∷ object_unref pipeline ∷ [], negsuc 0),
              )))
        ⊎ ((player.pool.size ≡ 0)
            × (n : ℕ) × (pool pool' : ThreadPool) × (gst_player_play pipeline player request
                ≡ returns (
                  accepted_player pipeline request task player pool,
                  (parse_launch (command request.uri) ∷ [], pos player.id),
                ))
            × (next_task pool ≡ done (some (pool', n, true)))
            × (get_elem? pool'.tasks n
                ≡ some (record (play_container player) { state = task_state_run })))
  gst_player_play_lem free idle short =
      rw (fits_buffer pipeline player request task is_player at short) (play_command_lem free idle)

  play_command-ne-undefined : play_command pipeline player request ≢ undefined
  play_command-ne-undefined e = elim (Bool-cases task.locked) [
    | inl held ↦
        waits-ne-undefined (sym (start_locked pipeline player request task is_player at held) ∙ e)
    | inr free ↦ elim (Bool-cases (task.state == gst_task_state_idle)) [
      | inl idle ↦ elim (play_command_lem free ((==_iff task.state gst_task_state_idle).0 idle)) [
        | inl (one, returned) ↦ returns-ne-undefined (sym returned ∙ e)
        | inr (none_waits, n, pool, pool', returned, takes, holds) ↦
            returns-ne-undefined (sym returned ∙ e)
      ]
      | inr busy ↦
          let is_busy : task.state ≢ gst_task_state_idle = λ f. ground (arith, busy, f) in
          returns-ne-undefined
            (sym (start_busy pipeline player request task is_player at free is_busy) ∙ e)
    ]
  ]

  -- In a player in use, `gst_player_play` writes behind its buffer exactly if the uri has 243 bytes or more;
  -- with a shorter one nothing it does is undefined, whatever the state of its task.
  pub gst_player_play-undefined_iff :
      (gst_player_play pipeline player request ≡ undefined) ↔ (243 ≤ length request.uri)
  unfolding gst_player_play
  gst_player_play-undefined_iff = elim (Bool-cases (ltb (length (command request.uri)) 255)) [
    | inl short ↦ (
      λ e. absurd (play_command-ne-undefined (sym (rw (gst_player_play, short) refl) ∙ e)),
      λ h. absurd (ground (arith, short, h)),
    )
    | inr long ↦ (λ e. ground (arith, long), λ h. rw (gst_player_play, long) refl)
  ]

  -- A play of a task that is not idle, whose lock is free, changes nothing but the id of the next play,
  -- makes no call and returns -1.
  pub gst_player_play_busy :
      length (command request.uri) < 255
      → task.locked ≡ false
      → task.state ≢ gst_task_state_idle
      → gst_player_play pipeline player request
        ≡ returns (record player { id = player.id + 1 }, ([], negsuc 0))
  gst_player_play_busy short free busy =
      fits_buffer pipeline player request task is_player at short
      ∙ start_busy pipeline player request task is_player at free busy

  -- When the pool has a task waiting, `gst_player_play` drops the pipeline it has made and returns -1, but the
  -- task keeps the pointer: a call of `gst_player_seek` that follows, with the id of that play, uses the
  -- pipeline after its last reference was dropped.
  pub gst_player_seek-gst_player_play :
      (sought : Bool) (ms_offset : ℤ)
      → length (command request.uri) < 255
      → task.locked ≡ false
      → task.state ≡ gst_task_state_idle
      → player.pool.size ≡ 1
      → (sought_in : Player) × (res : ℤ) × (gst_player_play pipeline player request
          ≡ returns (
            refused_player pipeline request task player,
            (parse_launch (command request.uri) ∷ object_unref pipeline ∷ [], negsuc 0),
          ))
        × (gst_player_seek sought
              (refused_player pipeline request task player)
              (pos player.id)
              ms_offset
            ≡ returns (sought_in, (element_seek pipeline ms_offset ∷ [], res)))
  unfolding gst_player_seek
  gst_player_seek-gst_player_play sought ms_offset short free idle one =
      elim (gst_player_play_lem free idle short) [
        | inl (one_waits, returned) ↦
            let i = next_slot player in
            let left = record (started_task pipeline player.id request task) {
              state = gst_task_state_idle;
            } in
            let within : i < length player.tasks =
              omega (arith, is_player.tasks, next_slot_lt player) in
            let refused = refused_player pipeline request task player in
            (
              record refused { tasks = set refused.tasks i left },
              if sought then pos 0 else negsuc 0,
              returned,
              rw (gst_player_seek, get_elem?-set_self player.tasks i left within) refl,
            )
        | inr (none_waits, n, pool, pool', returned, takes, holds) ↦
            absurd (omega (arith, one, none_waits))
      ]
