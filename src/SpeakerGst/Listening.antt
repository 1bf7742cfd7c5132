-- ===== src/SpeakerGst/Listening.antt =====
-- What a turn of the listener leaves.
use m_toolkit.Base.{
  ℕ, ◌≡◌, refl, ap, ◌∙◌, Bool, true, false, not, ◌&&◌, Option, none, some, List, [], ◌∷◌,
  if◌then◌else◌,
}
use m_toolkit.Base.Maps.{find}
use m_toolkit.LockContainer.LockMap.{change_all}
use m_toolkit.LockContainer.LockMap.Laws.{Ascending}
use m_toolkit.LockContainer.LockMap.Entries.{
  kept, changed, Ascending-change_all, find-change_all, Ascending-remove_entries,
  find-remove_entries,
}
use m_toolkit.SpeakerGst.{
  GstMessage, message_state_changed, message_error, message_eos, gst_null, GstAudio, set_state,
  print, GstAudioManager, expired, delete_expired_audio_streams_handle, listener_turn,
}

-- A message tells the end of the file, or an error.
abbrev pub tells_end : List GstMessage → Bool
tells_end [] = false
tells_end (message_state_changed ∷ messages) = tells_end messages
tells_end (message_error ∷ messages) = true
tells_end (message_eos ∷ messages) = true

abbrev pub ended : GstAudio → GstAudio
ended a = set_state gst_null (record a { is_running = false })

abbrev pub heard : Bool → GstAudio → GstAudio
heard ends a = if a.is_running then (if ends then ended a else a) else a

print-heard :
    (messages : List GstMessage) (a : GstAudio) → print messages a ≡ heard (tells_end messages) a
unfolding print
print-heard [] a = either a.is_running
  where
    either : (b : Bool) → a ≡ (if b then a else a)
    either true = refl
    either false = refl
print-heard (message_state_changed ∷ messages) a =
    either a.is_running (print messages a) (tells_end messages) (print-heard messages a)
  where
    either :
        (b : Bool) (printed : GstAudio) (ends : Bool)
        → printed ≡ (if b then (if ends then ended a else a) else a)
        → (if b then printed else a) ≡ (if b then (if ends then ended a else a) else a)
    either true printed ends e = e
    either false printed ends e = refl
print-heard (message_error ∷ messages) a = refl
print-heard (message_eos ∷ messages) a = refl

-- What a listener keeps of a task.
abbrev pub listened : Bool → Option GstAudio → Option GstAudio
listened ends none = none
listened ends (some a) = if a.is_running && not ends then some a else none

-- Where the keys ascend, a turn of the listener, without calls of others during it, leaves exactly the
-- tasks whose streams run and whose bus told neither the end of the file nor an error, each as it was,
-- and the keys ascend again.
pub listener_turn-listened :
    (messages : ℕ → List GstMessage) (m : GstAudioManager)
    → Ascending m.stream_manager
    → Ascending (listener_turn messages m).stream_manager
      × ((i : ℕ)
          → find i (listener_turn messages m).stream_manager
            ≡ listened (tells_end (messages i)) (find i m.stream_manager))
unfolding listener_turn delete_expired_audio_streams_handle
listener_turn-listened messages m s =
    let printing : ℕ → GstAudio → GstAudio = λ id a. print (messages id) a in
    let s' = Ascending-change_all printing m.stream_manager s in
    (
      Ascending-remove_entries expired (change_all printing m.stream_manager) s',
      (λ i.
          find-remove_entries expired i (change_all printing m.stream_manager) s'
          ∙ ap (kept expired i) (find-change_all printing i m.stream_manager)
          ∙ left i (find i m.stream_manager)),
    )
  where
    running :
        (i : ℕ) (ends b : Bool) (a : GstAudio)
        → kept expired i (some (heard ends (record a { is_running = b })))
          ≡ listened ends (some (record a { is_running = b }))
    running i true true a = refl
    running i false true a = refl
    running i ends false a = refl

    left :
        (i : ℕ) (o : Option GstAudio)
        → kept expired i (changed (λ id a. print (messages id) a) i o)
          ≡ listened (tells_end (messages i)) o
    left i none = refl
    left i (some a) =
        ap (λ b. kept expired i (some b)) (print-heard (messages i) a)
        ∙ running i (tells_end (messages i)) a.is_running a
