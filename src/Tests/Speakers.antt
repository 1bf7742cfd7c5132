-- ===== src/Tests/Speakers.antt =====
-- toolkit_enckit/source/speaker_pulseaudio with a file of three bytes.
use m_toolkit.Base.{
  ℕ, zero, suc, ◌+◌, ◌<◌, ◌≡◌, refl, ap, arith, true, false, none, some, List, [], ◌∷◌, length,
  take, drop, take-append-drop, ◌==◌, if◌then◌else◌, ◌⊎◌,
}
use m_toolkit.SpeakerPulseaudio.AudioStream
use m_toolkit.SpeakerPulseaudio.AudioStream.{
  SfInfo, sf_pcm_16, Libraries, AudioStream, Played, stream_request_cb, PaCall, stream_new,
  set_write_callback, set_state_callback, connect_playback, write, drain, audio_format,
  request_turns,
}
use m_toolkit.SpeakerPulseaudio.AudioStream.Protocol.{Playing, Closed, written}
use m_toolkit.SpeakerPulseaudio.AudioStream.Requests.{Documented}
use m_toolkit.SpeakerPulseaudio.AudioStream.Callbacks.{Served, stream_request_cb-Served}
use m_toolkit.SpeakerPulseaudio.AudioStream.Reach.{started, requests, Reach-Sound}
use m_toolkit.SpeakerPulseaudio.Manager.{PulseAudioManager, play}
use m_toolkit.SpeakerPulseaudio.Manager.Tasks.{PlayedTasks, play-PlayedTasks}
use m_toolkit.Base.Maps.{find}
use m_toolkit.LockContainer.LockMap.Laws.{Ascending}
use m_toolkit.SpeakerGst.{
  GstMessage, message_state_changed, message_eos, gst_playing, GstAudio, GstAudioManager,
  listener_turn,
}
use m_toolkit.SpeakerGst.Listening.{tells_end, listened, listener_turn-listened}

abbrev info : SfInfo
info = record { format = sf_pcm_16; samplerate = 44100; channels = 2 }

-- The server takes two bytes at a time.
abbrev two_at_a_time : Libraries
two_at_a_time = record {
  sf_open = λ path. some (info, 1 ∷ 2 ∷ 3 ∷ []);
  stream_made = true;
  connected = true;
  begin_write = λ turn n. some 2;
  read_raw = λ n left. (take n left, drop n left);
  drain_made = true;
}

drop_end : (n : ℕ) (left : List ℕ) → length (take n left) < n → drop n left ≡ []
drop_end zero left short = absurd (omega arith)
drop_end (suc n) [] short = refl
drop_end (suc n) (b ∷ left) short = drop_end n left (omega arith)

two_at_a_time-Documented : Documented two_at_a_time
two_at_a_time-Documented = record {
  reads = take-append-drop;
  ends = drop_end;
  takes = λ turn n granted e.
      let same : 2 ≡ granted = ap (λ o. elim o [ none ↦ 0 | some g ↦ g ]) e in omega arith;
}

abbrev begun : Played
begun = (AudioStream.start two_at_a_time 0 (AudioStream.create, [])).1

begun-Playing : Playing (1 ∷ 2 ∷ 3 ∷ []) begun
unfolding AudioStream.start AudioStream.create
begun-Playing = record {
  left = 1 ∷ 2 ∷ 3 ∷ [];
  opened = refl;
  made = refl;
  running = refl;
  used = refl;
  held = refl;
  whole = refl;
}

stream_request_cb-Served_example :
    (p' : Played) × (stream_request_cb two_at_a_time 5 4 begun ≡ some p')
    × Served two_at_a_time two_at_a_time-Documented
        (1 ∷ 2 ∷ 3 ∷ [])
        (length (written begun.1) + 4)
        begun.0.is_cancel
        p'
stream_request_cb-Served_example =
    stream_request_cb-Served two_at_a_time two_at_a_time-Documented (1 ∷ 2 ∷ 3 ∷ []) 5 4 begun
      begun-Playing (omega arith)

-- The file is played to its end, and the stream waits for the end of the sound.
abbrev drained : Played
drained = (
  record {
    is_pause = false;
    is_cancel = false;
    is_running = true;
    sndfile = some [];
    stream = true;
  },
  stream_new (audio_format info) true
      ∷ set_write_callback true
      ∷ set_state_callback true
      ∷ connect_playback
      ∷ write (1 ∷ 2 ∷ [])
      ∷ write (3 ∷ [])
      ∷ set_write_callback false
      ∷ drain
      ∷ [],
)

begun_drained : stream_request_cb two_at_a_time 5 4 begun ≡ some drained
unfolding stream_request_cb request_turns AudioStream.start AudioStream.create
begun_drained = refl

begun_started : AudioStream.start two_at_a_time 0 (AudioStream.create, []) ≡ (true, begun)
unfolding AudioStream.start AudioStream.create
begun_started = refl

begun_made : begun.0.stream ≡ true
unfolding AudioStream.start AudioStream.create
begun_made = refl

Reach-Sound_example : Playing (1 ∷ 2 ∷ 3 ∷ []) drained ⊎ Closed (1 ∷ 2 ∷ 3 ∷ []) drained
Reach-Sound_example = Reach-Sound (
    requests two_at_a_time 5 4 begun drained two_at_a_time-Documented
      (started two_at_a_time 0 info begun refl begun_started) begun_made (omega arith)
      begun_drained)

-- Task 7 has a stream.
abbrev one_task : PulseAudioManager
one_task = record {
  context = true;
  mainloop = true;
  context_is_connect = true;
  loop_thread = true;
  stream_manager = (7, drained) ∷ [];
}

play-PlayedTasks_example :
    PlayedTasks true 7
      (AudioStream.start two_at_a_time 0 (AudioStream.create, []))
      one_task
      (play two_at_a_time 7 0 one_task)
play-PlayedTasks_example = play-PlayedTasks two_at_a_time 7 0 one_task (tt, tt)

-- The file of task 8 has ended.
abbrev told : ℕ → List GstMessage
told i = if i == 8 then message_state_changed ∷ message_eos ∷ [] else message_state_changed ∷ []

abbrev playing_audio : GstAudio
playing_audio = record {
  is_running = true;
  taskid = 7;
  pipeline = true;
  bus = true;
  states = gst_playing ∷ [];
}

abbrev two_tasks : GstAudioManager
two_tasks = record {
  is_running = true;
  stream_manager = (7, playing_audio) ∷ (8, playing_audio) ∷ [];
}

listener_turn-listened_example :
    Ascending (listener_turn told two_tasks).stream_manager
    × ((i : ℕ)
        → find i (listener_turn told two_tasks).stream_manager
          ≡ listened (tells_end (told i)) (find i two_tasks.stream_manager))
listener_turn-listened_example = listener_turn-listened told two_tasks ((omega arith, tt), (tt, tt))
