-- ===== src/SpeakerGst.antt =====
-- toolkit_enckit/source/speaker_gst/speaker_gst.cpp: audio files played through GStreamer. What the
-- library answers is a parameter; each object keeps what it asked of its pipeline, oldest first.
pub mod Listening
use m_toolkit.Base.{
  ℕ, Bool, true, false, not, Option, none, some, List, [], ◌∷◌, ◌++◌, ◌==◌, if◌then◌else◌,
}
use m_toolkit.LockContainer.LockMap.{insert, is_exist, remove_entries, change_all}

pub data GstState : Type 0 where
  gst_null gst_paused gst_playing : GstState

-- The messages that `Print` asks the bus for.
pub data GstMessage : Type 0 where
  message_state_changed message_error message_eos : GstMessage

-- Whether a pipeline was parsed, set to play, and has a bus.
pub record Launched : Type 0 where
  pub parsed : Bool
  pub plays : Bool
  pub has_bus : Bool

-- `pipeline` and `bus` say whether there is one; `states` are the states that were asked for.
pub record GstAudio : Type 0 where
  pub is_running : Bool
  pub taskid : ℕ
  pub pipeline : Bool
  pub bus : Bool
  pub states : List GstState

unfoldable pub create : GstAudio
create = record { is_running = false; taskid = 0; pipeline = false; bus = false; states = [] }

abbrev pub set_state : GstState → GstAudio → GstAudio
set_state state a = record a { states = a.states ++ state ∷ [] }

-- `GstAudio::Play`
unfoldable pub launch : Launched → (taskid : ℕ) → GstAudio → Bool × GstAudio
launch answers taskid a =
    let a : GstAudio = record a { pipeline = answers.parsed } in
    if not answers.parsed
    then (false, a)
    else (let a : GstAudio = set_state gst_playing a in
        if not answers.plays
        then (false, a)
        else (let a : GstAudio = record a { bus = answers.has_bus } in
            if not answers.has_bus
            then (false, a)
            else (true, record a { taskid = taskid; is_running = true })))

-- The loop of `Print`, on the messages that stand in the bus.
unfoldable pub print : List GstMessage → GstAudio → GstAudio
print [] a = a
print (message_state_changed ∷ messages) a = if a.is_running then print messages a else a
print (message_error ∷ messages) a =
    if a.is_running then set_state gst_null (record a { is_running = false }) else a
print (message_eos ∷ messages) a =
    if a.is_running then set_state gst_null (record a { is_running = false }) else a

unfoldable pub pause_audio : GstAudio → GstAudio
pause_audio a = set_state gst_paused a

unfoldable pub resume_audio : GstAudio → GstAudio
resume_audio a = set_state gst_playing a

unfoldable pub cancel_audio : GstAudio → GstAudio
cancel_audio a = set_state gst_null (record a { is_running = false })

unfoldable pub close_audio : GstAudio → GstAudio
close_audio a = record a { pipeline = false; bus = false }

pub record GstAudioManager : Type 0 where
  pub is_running : Bool
  pub stream_manager : List (ℕ × GstAudio)

unfoldable pub start : GstAudioManager → GstAudioManager
start m = record m { is_running = true }

unfoldable pub stop : GstAudioManager → GstAudioManager
stop m = record m { is_running = false }

-- The manager, and the new stream as its destructor leaves it if nothing refers to it at the end.
unfoldable pub play : Launched → (task_id : ℕ) → GstAudioManager → GstAudioManager × Option GstAudio
play answers task_id m =
    let (played, audio_stream) = launch answers task_id create in
    if played
    then (
      record m { stream_manager = insert task_id audio_stream m.stream_manager },
      if is_exist task_id m.stream_manager then some (close_audio audio_stream) else none,
    )
    else (m, some (close_audio audio_stream))

abbrev pub all_do : (GstAudio → GstAudio) → GstAudioManager → GstAudioManager
all_do f m = record m { stream_manager = change_all (λ _ a. f a) m.stream_manager }

abbrev pub one_does : (GstAudio → GstAudio) → ℕ → GstAudioManager → GstAudioManager
one_does f task_id m =
    if is_exist task_id m.stream_manager
    then record m {
      stream_manager = change_all (λ id a. if id == task_id then f a else a) m.stream_manager;
    }
    else m

unfoldable pub pause_all : GstAudioManager → GstAudioManager
pause_all m = all_do pause_audio m

unfoldable pub pause : ℕ → GstAudioManager → GstAudioManager
pause task_id m = one_does pause_audio task_id m

unfoldable pub resume_all : GstAudioManager → GstAudioManager
resume_all m = all_do resume_audio m

unfoldable pub resume : ℕ → GstAudioManager → GstAudioManager
resume task_id m = one_does resume_audio task_id m

unfoldable pub cancel_all : GstAudioManager → GstAudioManager
cancel_all m = all_do cancel_audio m

unfoldable pub cancel : ℕ → GstAudioManager → GstAudioManager
cancel task_id m = one_does cancel_audio task_id m

abbrev pub expired : ℕ × GstAudio → Bool
expired (id, a) = not a.is_running

unfoldable pub delete_expired_audio_streams_handle : GstAudioManager → GstAudioManager
delete_expired_audio_streams_handle m = record m {
  stream_manager = remove_entries expired m.stream_manager;
}

-- A turn of the loop of `Listener`, where `messages` stand in the bus of each task, without calls of
-- others while the thread sleeps.
unfoldable pub listener_turn : (messages : ℕ → List GstMessage) → GstAudioManager → GstAudioManager
listener_turn messages m =
    delete_expired_audio_streams_handle
      (record m { stream_manager = change_all (λ id a. print (messages id) a) m.stream_manager })
