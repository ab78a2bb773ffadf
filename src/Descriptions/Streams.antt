-- ===== src/Descriptions/Streams.antt =====
-- `get_stream_type_name` against the stream ids of the standard.
use Prim.Native.String.{String}
use text.Mathlib.Text
use mpegts_reader.Common.{
  ℕ, ◌≡◌, ◌≢◌, ◌<◌, ◌↔◌, refl, Bool, true, false, ◌==◌, ltb, leb, ◌&&◌, not, if◌then◌else◌, arith,
}
use mpegts_reader.Common.Bits.{agree_below, agree_below_sound}
use mpegts_reader.Descriptions.{get_stream_type_name}

-- The stream ids of audio and of video, by ISO/IEC 13818-1.
abbrev pub is_audio : ℕ → Bool
is_audio id = leb 0xC0 id && leb id 0xDF

abbrev pub is_video : ℕ → Bool
is_video id = leb 0xE0 id && leb id 0xEF

-- `get_stream_type_name` gives this name.
abbrev pub is_called : String → ℕ → Bool
is_called name id = Text.◌==◌ (get_stream_type_name id) name

abbrev same : Bool → Bool → ℕ
same true true = 1
same true false = 0
same false true = 0
same false false = 1

abbrev audio_agrees : ℕ → ℕ
audio_agrees id = same (is_called "Audio" id) (is_audio id)

abbrev video_agrees : ℕ → ℕ
video_agrees id = same (is_called "Video" id) (is_video id)

abbrev no_audio_exception : ℕ → ℕ
no_audio_exception id = if ltb 0xBC id && not (id == 0xDF) then 1 else 0

abbrev no_video_exception : ℕ → ℕ
no_video_exception id = if not (id == 0xDF) && not (id == 0xEF) then 1 else 0

audio_table : agree_below 256 audio_agrees no_audio_exception ≡ true
unfolding agree_below get_stream_type_name
audio_table = refl

video_table : agree_below 256 video_agrees no_video_exception ≡ true
unfolding agree_below get_stream_type_name
video_table = refl

same_iff : (a b : Bool) → (a ≡ b) ↔ (same a b ≡ 1)
same_iff true true = (λ e. refl, λ e. refl)
same_iff true false = (λ e. cc, λ e. absurd (omega (arith, e)))
same_iff false true = (λ e. cc, λ e. absurd (omega (arith, e)))
same_iff false false = (λ e. refl, λ e. refl)

-- For a stream id of one byte, that `get_stream_type_name` says "Audio" or not agrees with the standard,
-- whose audio has the ids 0xC0 to 0xDF, exactly if the id is above 0xBC and not 0xDF; that it says "Video"
-- or not agrees with the standard, whose video has the ids 0xE0 to 0xEF, exactly if the id is neither
-- 0xDF nor 0xEF. It calls 0xBD, 0xBE and 0xBF "Private Stream1", "Padding Stream" and "Private Stream2".
pub get_stream_type_name-is_audio_iff :
    (id : ℕ)
    → id < 256
    → ((is_called "Audio" id ≡ is_audio id) ↔ ((0xBC < id) × (id ≢ 0xDF)))
      × ((is_called "Video" id ≡ is_video id) ↔ ((id ≢ 0xDF) × (id ≢ 0xEF)))
      × (get_stream_type_name 0xBD ≡ "Private Stream1")
      × (get_stream_type_name 0xBE ≡ "Padding Stream")
      × (get_stream_type_name 0xBF ≡ "Private Stream2")
unfolding get_stream_type_name
get_stream_type_name-is_audio_iff id h =
    let audio = agree_below_sound 256 audio_agrees no_audio_exception id audio_table h in
    let video = agree_below_sound 256 video_agrees no_video_exception id video_table h in
    let audio_same = same_iff (is_called "Audio" id) (is_audio id) in
    let video_same = same_iff (is_called "Video" id) (is_video id) in
    (
      (
        λ e. ground (arith, audio, audio_same.0 e),
        λ (above, other). audio_same.1 (ground (arith, audio, above, other)),
      ),
      (
        λ e. ground (arith, video, video_same.0 e),
        λ (other, last). video_same.1 (ground (arith, video, other, last)),
      ),
      refl,
      refl,
      refl,
    )
