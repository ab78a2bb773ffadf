-- ===== src/Player/Calls.antt =====
-- The calls that gst_aplay.c makes of GStreamer, GLib and the callbacks of its client, in the order in
-- which a function makes them.
use mpegts_reader.Common.{ℕ, List}
use mpegts_reader.Common.Integers.{ℤ}

-- GST_STATE_NULL, GST_STATE_READY, GST_STATE_PAUSED, GST_STATE_PLAYING
pub data GstState : Type 0 where
  stopped ready paused playing : GstState

pub data Call : Type 0 where
  parse_launch : List ℕ → Call  -- gst_parse_launch, by its command
  object_unref : ℕ → Call  -- gst_object_unref
  get_bus : ℕ → Call  -- gst_element_get_bus
  set_state : ℕ → GstState → Call  -- gst_element_set_state
  element_seek : ℕ → ℤ → Call  -- gst_element_seek to an offset in milliseconds
  signal_watch : ℕ → Call  -- gst_bus_add_signal_watch and g_signal_connect
  main_loop_run : ℕ → Call  -- g_main_loop_run
  main_loop_quit : ℕ → Call  -- g_main_loop_quit
  main_loop_unref : ℕ → Call  -- g_main_loop_unref
  called_back : ℕ → ℕ → ℤ → ℕ → Call  -- the client's callback, with the id, the result and its argument
