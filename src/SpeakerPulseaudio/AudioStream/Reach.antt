-- ===== src/SpeakerPulseaudio/AudioStream/Reach.antt =====
-- A stream over any sequence of calls and callbacks.
use mathlib.Core.Path.{subst, ap₂}
use mathlib.Core.List.{append-nil}
use m_toolkit.Base.{
  ℕ, ◌<◌, ◌≡◌, refl, sym, ap, ◌∙◌, arith, Bool, true, false, not, none, some, List, [], ◌∷◌, ◌++◌,
  if◌then◌else◌, inl, inr, ◌⊎◌,
}
use m_toolkit.SpeakerPulseaudio.AudioStream.{
  PaCall, stream_new, set_write_callback, set_state_callback, connect_playback, disconnect, unref,
  sf_close, cork, SfInfo, AudioStream, Played, Libraries, audio_format, create, close, close_calls,
  pause, resume, cancel, start, stream_request_cb, stream_drain_complete,
}
use m_toolkit.SpeakerPulseaudio.AudioStream.Protocol.{Playing, Closed, Playing-asks, close-Closed}
use m_toolkit.SpeakerPulseaudio.AudioStream.Requests.{Documented}
use m_toolkit.SpeakerPulseaudio.AudioStream.Callbacks.{stream_request_cb-Served}

-- The streams of a file that was started, where libpulse calls back only while there is a stream.
pub data Reach (file : List ℕ) : Played → Type 0 where
  started :
      (lib : Libraries) (path : ℕ) (sfi : SfInfo) (p : Played)
      → lib.sf_open path ≡ some (sfi, file)
      → start lib path (create, []) ≡ (true, p)
      → Reach file p
  pauses : (p : Played) → Reach file p → Reach file (pause p)
  resumes : (p : Played) → Reach file p → Reach file (resume p)
  cancels : (p : Played) → Reach file p → Reach file (cancel p)
  requests :
      (lib : Libraries) (fuel requested : ℕ) (p p' : Played)
      → Documented lib
      → Reach file p
      → p.0.stream ≡ true
      → requested < fuel
      → stream_request_cb lib fuel requested p ≡ some p'
      → Reach file p'
  drains : (p : Played) → Reach file p → p.0.stream ≡ true → Reach file (stream_drain_complete p)
  destroys : (p : Played) → Reach file p → Reach file (close p)

abbrev pub Sound : List ℕ → Played → Type 0
Sound file p = Playing file p ⊎ Closed file p

start-Playing :
    (lib : Libraries) (path : ℕ) (sfi : SfInfo) (file : List ℕ) (p : Played)
    → lib.sf_open path ≡ some (sfi, file)
    → start lib path (create, []) ≡ (true, p)
    → Playing file p
unfolding start create
start-Playing lib path sfi file p opens starts = either lib.stream_made lib.connected (
    ap
      (λ o. elim o [
        | none ↦ (false, (create, []))
        | some (sfi, file) ↦ outcome sfi file lib.stream_made lib.connected
      ])
      (sym opens)
    ∙ starts)
  where
    outcome : SfInfo → List ℕ → (made connected : Bool) → Bool × Played
    outcome sfi file made connected =
        let t : AudioStream = record create { sndfile = some file } in
        let calls : List PaCall = stream_new (audio_format sfi) made ∷ [] in
        if not made then (false, (t, calls)) else (
          connected,
          (
            record t { stream = true },
            calls ++ set_write_callback true ∷ set_state_callback true ∷ connect_playback ∷ [],
          ),
        )

    playing : Playing file (outcome sfi file true true).1
    playing = record {
      left = file;
      opened = refl;
      made = refl;
      running = refl;
      used = refl;
      held = refl;
      whole = refl;
    }

    either : (made connected : Bool) → outcome sfi file made connected ≡ (true, p) → Playing file p
    either true true e = subst (Playing file) (ap (λ r. r.1) e) playing
    either true false e = let odd : false ≡ true = ap (λ r. r.0) e in absurd (ground (arith, odd))
    either false connected e =
        let odd : false ≡ true = ap (λ r. r.0) e in absurd (ground (arith, odd))

-- A closed stream is not closed again.
close-again : (file : List ℕ) (p : Played) → Closed file p → Closed file (close p)
unfolding close
close-again file (t, calls) c =
    let nothing : close_calls t ≡ [] =
      ap₂
        (λ b o.
          (if b
            then set_write_callback false ∷ set_state_callback false ∷ disconnect ∷ unref ∷ []
            else [])
          ++ elim o [ none ↦ [] | some _ ↦ sf_close ∷ [] ])
        c.released c.shut in
    let same : calls ≡ calls ++ close_calls t =
      sym (ap (λ l. calls ++ l) nothing ∙ append-nil calls) in
    subst (λ l. Closed file (record t { stream = false; sndfile = none; is_running = false }, l))
      same
      (record {
        left = c.left;
        shut = refl;
        released = refl;
        stopped = refl;
        used = c.used;
        freed = c.freed;
        whole = c.whole;
      })

close-Sound : (file : List ℕ) (p : Played) → Sound file p → Sound file (close p)
close-Sound file p (inl v) = inr (close-Closed file p v)
close-Sound file p (inr c) = inr (close-again file p c)

-- The wishes of the caller are not what the stream is about.
Sound-flagged :
    (file : List ℕ) (t : AudioStream) (calls : List PaCall) (paused cancelled : Bool)
    → Sound file (t, calls)
    → Sound file (record t { is_pause = paused; is_cancel = cancelled }, calls)
Sound-flagged file t calls paused cancelled (inl v) = inl (record {
  left = v.left;
  opened = v.opened;
  made = v.made;
  running = v.running;
  used = v.used;
  held = v.held;
  whole = v.whole;
})
Sound-flagged file t calls paused cancelled (inr c) = inr (record {
  left = c.left;
  shut = c.shut;
  released = c.released;
  stopped = c.stopped;
  used = c.used;
  freed = c.freed;
  whole = c.whole;
})

abbrev resumed : AudioStream → List PaCall → Bool → Played
resumed t calls made =
    if made then (record t { is_pause = false }, calls ++ cork false ∷ []) else (t, calls)

resume-Sound : (file : List ℕ) (p : Played) → Sound file p → Sound file (resume p)
unfolding resume
resume-Sound file (t, calls) (inl v) =
    subst (λ b. Sound file (resumed t calls b)) (sym v.made)
      (Sound-flagged file t (calls ++ cork false ∷ []) false t.is_cancel
        (inl (Playing-asks file t calls (cork false ∷ []) v refl refl refl)))
resume-Sound file (t, calls) (inr c) =
    subst (λ b. Sound file (resumed t calls b)) (sym c.released) (inr c)

request-Sound :
    (lib : Libraries) (file : List ℕ) (fuel requested : ℕ) (p p' : Played)
    → Documented lib
    → Sound file p
    → p.0.stream ≡ true
    → requested < fuel
    → stream_request_cb lib fuel requested p ≡ some p'
    → Sound file p'
request-Sound lib file fuel requested p p' d (inr c) there enough ran =
    let odd : false ≡ true = sym c.released ∙ there in absurd (ground (arith, odd))
request-Sound lib file fuel requested p p' d (inl v) there enough ran =
    let (q, same, served) = stream_request_cb-Served lib d file fuel requested p v enough in
    let is_q : q ≡ p' = ap (λ o. elim o [ none ↦ q | some r ↦ r ]) (sym same ∙ ran) in
    subst (Sound file) is_q (elim served [ inl c ↦ inr c | inr (_, v, _) ↦ inl v ])

-- Where the libraries keep to their documents and call back only while there is a stream, any sequence
-- of calls and callbacks after a Start that succeeded leaves the stream in one of two states. Either it
-- plays: it runs, its file is open, the stream was made and not released, and what was written and what
-- is left to read make up the file. Or it is closed: it does not run, the stream was released once and
-- not used after that, the file was closed once, and what was written is the file up to some place.
pub Reach-Sound : {file : List ℕ} {p : Played} → Reach file p → Playing file p ⊎ Closed file p
unfolding pause cancel stream_drain_complete
Reach-Sound {file} (started lib path sfi p opens starts) =
    inl (start-Playing lib path sfi file p opens starts)
Reach-Sound {file} (pauses (t, calls) r) =
    Sound-flagged file t calls true t.is_cancel (Reach-Sound r)
Reach-Sound {file} (resumes p r) = resume-Sound file p (Reach-Sound r)
Reach-Sound {file} (cancels (t, calls) r) =
    Sound-flagged file t calls t.is_pause true (Reach-Sound r)
Reach-Sound {file} (requests lib fuel requested p p' d r there enough ran) =
    request-Sound lib file fuel requested p p' d (Reach-Sound r) there enough ran
Reach-Sound {file} (drains p r there) = close-Sound file p (Reach-Sound r)
Reach-Sound {file} (destroys p r) = close-Sound file p (Reach-Sound r)
