-- ===== src/Lib.antt =====
-- Verification of mpegts-reader: a parser and writer of MPEG transport streams, the playlists of such
-- streams, and the player with its thread pool.
--
-- The program reads a file of packets of 188 bytes into a list of segments, changes fields of them and
-- writes them back over the file. mpegts_parser.c parses and writes one packet and holds the operations
-- on a stream; hls_parser.c reads the paths of a playlist file, makes a stream of each and applies the
-- operations to all of them; gst_aplay.c plays a playlist on the threads of thread_pool.c.
--
-- Common          numbers, lists with native indices, words, masks, signed integers; Outcome is the
--                 result of code that may stop: `exited` for the `exit` in LOG_ERR (the Makefile defines
--                 MAJOR), `fault` for an access outside an array or through no pointer, `stuck` for fuel
--                 that ran out, which is no run of the program.
-- Dlist           the list library of utils/ as a record of its operations, with the laws the program
--                 relies on.
-- Ts              mpegts_parser.h: the records of a packet.
-- Ts/Header       parse_header, write_header.
-- Ts/Array        reads and writes through a pointer into the payload.
-- Ts/Pcr, Ts/Pts  parse_pcr, write_pcr; get_pes_pts.
-- Ts/Adaptation   parse_adaptation_field, write_adaptation_field.
-- Ts/Pes          parse_pes_header, write_pes_header.
-- Ts/Packet       parse_ts_segment, write_ts_segment.
-- Stream          the mpegts_stream_* operations: read_segment, stream_write, update_cc, get_last_cc,
--                 fix_keyframe, update_pcr_by_pts, pes_reset_len, free_loop.
-- Hls             hls_parser.c under the names of the source.
-- ThreadPool      the task queue of thread_pool.c: thread_pool_submit, is_queue_full_unsafe and
--                 get_available under their names, handle_task as next_task, which waits for a task or
--                 takes one, and finish_task. ThreadPool/Mailbox has the histories of a pool: the jobs it
--                 accepted, and those that workers took. ThreadPool/Workers is the whole of handle_task by
--                 its steps, and thread_pool_new with its threads; ThreadPool/Work lets one worker run,
--                 ThreadPool/Kept and ThreadPool/Reports follow a container while other threads go on,
--                 and ThreadPool/Balance counts what clients and workers do in any order.
-- Hls/Update      hls_parse followed by hls_update, on a file system.
-- Hls/Numbered    hls_playlist_init, hls_parse, hls_fix_discontinuity and hls_update one after the other, on
--                 files of packets; Stream/Numbered is the part of one stream, and
--                 Stream/KeyFrames has fix_keyframe in the place of update_cc. Hls/Below has a playlist
--                 below a parent.
-- Stream/Reach    the streams that the operations bring about, in any order.
-- Player          gst_aplay.c under the names of the source: what each function does while it holds the
--                 lock of a task. Player/Play is gst_player_play, Player/Worker has the parts of
--                 handle_play_task between its locks, play_task_callback and cb_message; Player/Steps
--                 lets the calls of clients and the parts of workers come in any order.
-- Descriptions    the tables of names of mpegts_parser.c, and the print functions, by the arguments of
--                 each line.
-- CommandLine     main.c: the loop over the arguments, the play, and the loop that seeks.
-- Examples        concrete packets, streams, playlists, pools, players and arguments.
--
-- A pointer into a payload is an index, a file the bytes that are left of it, and the 32-bit word of a
-- packet's first four bytes is read as a little-endian machine does. What `malloc` gives is a parameter,
-- with whatever the memory holds, since the program reads some of it. Operations on lists take the list
-- library as a parameter; the operations of the pool are what the code does while it holds the lock, and
-- the threads take such steps in any order.
--
-- Fuel: the loop of read_segment has one round more than the file has bytes, the loop of hls_parse one
-- more than the playlist file has; each round takes a byte at least. The loop of free_loop has one more
-- than there are segments.
--
-- In the player a call of GStreamer or GLib is an entry of a list, and what it answers an argument. The
-- loop of main takes the number of its rounds, since it has no end of its own.
--
-- Not modelled: the text that printf makes of a line; the list library itself; writes through a playlist
-- below a parent after the parent's functions took its node for a stream; a mutex that cannot be locked, a
-- condition variable that fails, a thread that is not created and a player that is NULL.
pub mod Common
pub mod Ts
pub mod Dlist
pub mod Stream
pub mod Hls
pub mod ThreadPool
pub mod Player
pub mod Descriptions
pub mod CommandLine
pub mod Examples
