-- ===== src/SpeakerPulseaudio/Manager.antt =====
-- toolkit_enckit/source/speaker_pulseaudio/speaker_pulseaudio.cpp: `PulseAudioManager`. Tasks are named by
-- numbers; each refers to its stream, with what that has asked of the libraries.
pub mod Tasks
use m_toolkit.Base.{
  ℕ, Bool, true, false, not, Option, none, some, List, [], ◌∷◌, ◌==◌, if◌then◌else◌,
}
use m_toolkit.LockContainer.LockMap.{insert, is_exist, remove_entries, change_all}
use m_toolkit.SpeakerPulseaudio.AudioStream
use m_toolkit.SpeakerPulseaudio.AudioStream.{Played, Libraries}

-- `context`, `mainloop` and `loop_thread` say whether there is one.
pub record PulseAudioManager : Type 0 where
  pub context : Bool
  pub mainloop : Bool
  pub context_is_connect : Bool
  pub loop_thread : Bool
  pub stream_manager : List (ℕ × Played)

unfoldable pub start : (mainloop_made context_made : Bool) → PulseAudioManager → PulseAudioManager
start mainloop_made context_made m =
    let m : PulseAudioManager = record m { context_is_connect = false; mainloop = mainloop_made } in
    if not mainloop_made
    then m
    else (let m : PulseAudioManager = record m { context = context_made } in
        if not context_made then m else record m { loop_thread = true })

unfoldable pub exit_loop : PulseAudioManager → PulseAudioManager
exit_loop m = record m { context_is_connect = false }

pub data ContextState : Type 0 where
  context_ready context_failed context_terminated context_other : ContextState

unfoldable pub context_state_callback : ContextState → PulseAudioManager → PulseAudioManager
context_state_callback context_ready m = record m { context_is_connect = true }
context_state_callback _ m = record m { context_is_connect = false }

abbrev pub expired : ℕ × Played → Bool
expired (id, (t, calls)) = not t.is_running

unfoldable pub delete_expired_audio_streams_handle : PulseAudioManager → PulseAudioManager
delete_expired_audio_streams_handle m = record m {
  stream_manager = remove_entries expired m.stream_manager;
}

-- The manager, and the new stream as its destructor leaves it if nothing refers to it at the end.
unfoldable pub play :
    Libraries → (task_id path : ℕ) → PulseAudioManager → PulseAudioManager × Option Played
play lib task_id path m =
    let m = delete_expired_audio_streams_handle m in
    if not m.context_is_connect
    then (m, none)
    else (let (started, audio_stream) = AudioStream.start lib path (AudioStream.create, []) in
        if started
        then (
          record m { stream_manager = insert task_id audio_stream m.stream_manager },
          if is_exist task_id m.stream_manager then some (AudioStream.close audio_stream) else none,
        )
        else (m, some (AudioStream.close audio_stream)))

-- A method of every stream, and of the stream of one task.
abbrev pub all_do : (Played → Played) → PulseAudioManager → PulseAudioManager
all_do f m = record m { stream_manager = change_all (λ _ p. f p) m.stream_manager }

abbrev pub one_does : (Played → Played) → ℕ → PulseAudioManager → PulseAudioManager
one_does f task_id m =
    if is_exist task_id m.stream_manager
    then record m {
      stream_manager = change_all (λ id p. if id == task_id then f p else p) m.stream_manager;
    }
    else m

unfoldable pub pause_all : PulseAudioManager → PulseAudioManager
pause_all m = all_do AudioStream.pause m

unfoldable pub pause : ℕ → PulseAudioManager → PulseAudioManager
pause task_id m = one_does AudioStream.pause task_id m

unfoldable pub resume_all : PulseAudioManager → PulseAudioManager
resume_all m = all_do AudioStream.resume m

unfoldable pub resume : ℕ → PulseAudioManager → PulseAudioManager
resume task_id m = one_does AudioStream.resume task_id m

unfoldable pub cancel_all : PulseAudioManager → PulseAudioManager
cancel_all m = all_do AudioStream.cancel m

unfoldable pub cancel : ℕ → PulseAudioManager → PulseAudioManager
cancel task_id m = one_does AudioStream.cancel task_id m
