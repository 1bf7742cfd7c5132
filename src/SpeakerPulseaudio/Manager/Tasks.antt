-- ===== src/SpeakerPulseaudio/Manager/Tasks.antt =====
-- Which streams the manager keeps.
use m_toolkit.Base.{
  ℕ, ◌≡◌, refl, ap, ◌∙◌, Bool, true, false, not, ◌&&◌, Option, none, some, List, [], if◌then◌else◌,
}
use m_toolkit.Base.Maps.{find}
use m_toolkit.LockContainer.LockMap.{insert, is_exist, remove_entries}
use m_toolkit.LockContainer.LockMap.Laws.{Ascending, Ascending-insert, inserted, find-inserted}
use m_toolkit.LockContainer.LockMap.Entries.{kept, Ascending-remove_entries, find-remove_entries}
use m_toolkit.SpeakerPulseaudio.AudioStream
use m_toolkit.SpeakerPulseaudio.AudioStream.{Played, Libraries}
use m_toolkit.SpeakerPulseaudio.Manager.{
  PulseAudioManager, expired, delete_expired_audio_streams_handle, play,
}

-- The stream of a task, if it runs.
abbrev pub still : Option Played → Option Played
still none = none
still (some (t, calls)) = if t.is_running then some (t, calls) else none

still_kept : (i : ℕ) (o : Option Played) → kept expired i o ≡ still o
still_kept i none = refl
still_kept i (some (t, calls)) = either t.is_running
  where
    p : Played
    p = (t, calls)

    either : (b : Bool) → (if not b then none else some p) ≡ (if b then some p else none)
    either true = refl
    either false = refl

-- What a task stands for after a call of Play, by the stream that is left of it.
abbrev pub played : (plays : Bool) → (task_id : ℕ) → Played → ℕ → Option Played → Option Played
played plays task_id audio_stream i left =
    if plays then inserted task_id audio_stream i left else left

-- The new stream, closed, unless the task has it.
abbrev pub dropped : (connected started : Bool) → Played → Option Played → Option Played
dropped connected started audio_stream left =
    if not connected
    then none
    else (if started
        then elim left [ none ↦ none | some _ ↦ some (AudioStream.close audio_stream) ]
        else some (AudioStream.close audio_stream))

-- What Play did.
abbrev pub PlayedTasks :
    (connected : Bool)
    → (task_id : ℕ) → Bool × Played
    → PulseAudioManager
    → PulseAudioManager × Option Played
    → Type 0
PlayedTasks connected task_id (started, audio_stream) m (m', given_up) =
    Ascending m'.stream_manager
    × ((i : ℕ)
        → find i m'.stream_manager
          ≡ played (connected && started) task_id audio_stream i (still (find i m.stream_manager)))
    × (given_up ≡ dropped connected started audio_stream (still (find task_id m.stream_manager)))

-- Where the keys ascend, Play first takes the streams out that no longer run. If the context is
-- connected and the new stream started, the task gets it unless it still has a stream that runs; the
-- keys ascend again, and no other task changes. In every other case the tasks stay as they are, and a
-- new stream that was made, but is not given to the task, is closed.
pub play-PlayedTasks :
    (lib : Libraries) (task_id path : ℕ) (m : PulseAudioManager)
    → Ascending m.stream_manager
    → PlayedTasks m.context_is_connect task_id
        (AudioStream.start lib path (AudioStream.create, []))
        m
        (play lib task_id path m)
unfolding play delete_expired_audio_streams_handle is_exist
play-PlayedTasks lib task_id path m s =
    either m.context_is_connect (AudioStream.start lib path (AudioStream.create, []))
  where
    left : List (ℕ × Played)
    left = remove_entries expired m.stream_manager

    left_found : (i : ℕ) → find i left ≡ still (find i m.stream_manager)
    left_found i =
        find-remove_entries expired i m.stream_manager s ∙ still_kept i (find i m.stream_manager)

    left_ascends : Ascending left
    left_ascends = Ascending-remove_entries expired m.stream_manager s

    either :
        (connected : Bool) (r : Bool × Played)
        → PlayedTasks connected task_id r m (
            if not connected
            then (record m { stream_manager = left; context_is_connect = connected }, none)
            else (if r.0
                then (
                  record m {
                    stream_manager = insert task_id r.1 left;
                    context_is_connect = connected;
                  },
                  if elim (find task_id left) [ none ↦ false | some _ ↦ true ]
                      then some (AudioStream.close r.1)
                      else none,
                )
                else (
                  record m { stream_manager = left; context_is_connect = connected },
                  some (AudioStream.close r.1),
                )))
    either false r = (left_ascends, left_found, refl)
    either true (false, p) = (left_ascends, left_found, refl)
    either true (true, p) = (
      Ascending-insert task_id p left left_ascends,
      (λ i. find-inserted task_id p i left left_ascends ∙ ap (inserted task_id p i) (left_found i)),
      test (find task_id left) ∙ ap (dropped true true p) (left_found task_id),
    )
      where
        test :
            (o : Option Played)
            → (if elim o [ none ↦ false | some _ ↦ true ] then some (AudioStream.close p) else none)
              ≡ dropped true true p o
        test none = refl
        test (some q) = refl
