-- ===== src/SpeakerPulseaudio/AudioStream.antt =====
-- toolkit_enckit/source/speaker_pulseaudio/speaker_pulseaudio.cpp: `AudioStream`, one file that is
-- played. What libsndfile and libpulse answer is a parameter; a file is what is left to read of it.
pub mod Protocol
pub mod Requests
pub mod Callbacks
pub mod Reach
use m_toolkit.Base.{
  ℕ, zero, suc, ◌+◌, ◌-◌, ◌%◌, ◌^◌, Bool, true, false, not, Option, none, some, List, [], ◌∷◌, ◌++◌,
  length, ltb, leb, if◌then◌else◌,
}

pub data SfFormat : Type 0 where
  sf_pcm_16 sf_pcm_u8 sf_pcm_s8 sf_pcm_32 sf_pcm_24 sf_ulaw sf_alaw sf_float sf_double sf_other :
      SfFormat

pub data PaFormat : Type 0 where
  pa_s16 pa_s32 pa_ulaw pa_alaw pa_float32 : PaFormat

pub record SfInfo : Type 0 where
  pub format : SfFormat
  pub samplerate : ℕ
  pub channels : ℕ

pub record SampleSpec : Type 0 where
  pub format : PaFormat
  pub rate : ℕ
  pub channels : ℕ

abbrev pub pa_format : SfFormat → PaFormat
pa_format sf_pcm_16 = pa_s16
pa_format sf_pcm_u8 = pa_s16
pa_format sf_pcm_s8 = pa_s16
pa_format sf_pcm_32 = pa_s32
pa_format sf_pcm_24 = pa_s32
pa_format sf_ulaw = pa_ulaw
pa_format sf_alaw = pa_alaw
pa_format sf_float = pa_float32
pa_format sf_double = pa_float32
pa_format sf_other = pa_float32

unfoldable pub audio_format : SfInfo → SampleSpec
audio_format sfi = record {
  format = pa_format sfi.format;
  rate = sfi.samplerate % 2 ^ 32;
  channels = sfi.channels % 2 ^ 8;
}

-- What is asked of the two libraries.
pub data PaCall : Type 0 where
  stream_new : SampleSpec → (made : Bool) → PaCall
  set_write_callback set_state_callback cork : Bool → PaCall
  connect_playback disconnect unref cancel_write drain : PaCall
  write : List ℕ → PaCall
  sf_close : PaCall

-- What they answer. `begin_write` gets the number of the turn and what it may write, and says how much
-- it takes, `none` if it fails; `read_raw` gets a number of bytes and what is left of a file, and gives
-- the bytes and what is left then.
pub record Libraries : Type 0 where
  pub sf_open : ℕ → Option (SfInfo × List ℕ)
  pub stream_made : Bool
  pub connected : Bool
  pub begin_write : ℕ → ℕ → Option ℕ
  pub read_raw : ℕ → List ℕ → List ℕ × List ℕ
  pub drain_made : Bool

-- `stream` says whether there is one.
pub record AudioStream : Type 0 where
  pub is_pause : Bool
  pub is_cancel : Bool
  pub is_running : Bool
  pub sndfile : Option (List ℕ)
  pub stream : Bool

-- A stream, and what its methods asked for, oldest first.
abbrev pub Played : Type 0
Played = AudioStream × List PaCall

abbrev pub asks : Played → List PaCall → Played
asks (t, calls) later = (t, calls ++ later)

unfoldable pub create : AudioStream
create = record {
  is_pause = false;
  is_cancel = false;
  is_running = true;
  sndfile = none;
  stream = false;
}

abbrev pub close_calls : AudioStream → List PaCall
close_calls t =
    (if t.stream
      then set_write_callback false ∷ set_state_callback false ∷ disconnect ∷ unref ∷ []
      else [])
    ++ elim t.sndfile [ none ↦ [] | some left ↦ sf_close ∷ [] ]

unfoldable pub close : Played → Played
close (t, calls) =
    (record t { stream = false; sndfile = none; is_running = false }, calls ++ close_calls t)

unfoldable pub pause : Played → Played
pause (t, calls) = (record t { is_pause = true }, calls)

unfoldable pub resume : Played → Played
resume (t, calls) =
    if t.stream then (record t { is_pause = false }, calls ++ cork false ∷ []) else (t, calls)

unfoldable pub cancel : Played → Played
cancel (t, calls) = (record t { is_cancel = true }, calls)

module _ (lib : Libraries) where
  unfoldable pub start : (path : ℕ) → Played → Bool × Played
  start path (t, calls) = elim (lib.sf_open path) [
    | none ↦ (false, (record t { sndfile = none }, calls))
    | some (sfi, file) ↦
        let t : AudioStream = record t { sndfile = some file } in
        let calls : List PaCall = calls ++ stream_new (audio_format sfi) lib.stream_made ∷ [] in
        if not lib.stream_made then (false, (t, calls)) else (
          lib.connected,
          (
            record t { stream = true },
            calls ++ set_write_callback true ∷ set_state_callback true ∷ connect_playback ∷ [],
          ),
        )
  ]

  abbrev pub left_of : AudioStream → List ℕ
  left_of t = elim t.sndfile [ none ↦ [] | some left ↦ left ]

  -- Where a file is open, it is left with what was not read.
  abbrev pub leave : List ℕ → AudioStream → AudioStream
  leave left t = record t { sndfile = elim t.sndfile [ none ↦ none | some _ ↦ some left ] }

  abbrev pub written_call : List ℕ → PaCall
  written_call [] = cancel_write
  written_call (b ∷ bytes) = write (b ∷ bytes)

  -- The loop of `stream_request_cb` that its turn `turn` is in: whether it returned from the callback,
  -- with the stream.
  unfoldable pub request_turns : (fuel turn length : ℕ) → Played → Option (Bool × Played)
  request_turns zero turn requested p = none
  request_turns (suc fuel) turn requested (t, calls) = elim (lib.begin_write turn requested) [
    | none ↦ some (true, close (t, calls))
    | some data_length ↦
        let (bytes, left) = lib.read_raw data_length (left_of t) in
        let p : Played = (leave left t, calls ++ written_call bytes ∷ []) in
        let others = request_turns fuel (turn + 1) (requested - length bytes) p in
        if ltb (length bytes) data_length
        then some (
            if lib.drain_made
            then (false, asks p (set_write_callback false ∷ drain ∷ []))
            else (true, close (asks p (set_write_callback false ∷ drain ∷ []))))
        else (if leb requested (length bytes) then some (false, p) else others)
  ]

  -- What follows the loop.
  abbrev pub requested_end : Bool × Played → Played
  requested_end (true, p) = p
  requested_end (false, (t, calls)) =
      let p : Played = if t.is_pause then (t, calls ++ cork true ∷ []) else (t, calls) in
      if t.is_cancel then close p else p

  unfoldable pub stream_request_cb : (fuel length : ℕ) → Played → Option Played
  stream_request_cb fuel length p = elim (request_turns fuel 0 length p) [
    | none ↦ none
    | some ended ↦ some (requested_end ended)
  ]

unfoldable pub stream_drain_complete : Played → Played
stream_drain_complete p = close p
