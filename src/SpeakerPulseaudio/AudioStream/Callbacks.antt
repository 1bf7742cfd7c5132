-- ===== src/SpeakerPulseaudio/AudioStream/Callbacks.antt =====
-- One write callback, and a stream over any sequence of calls and callbacks.
use mathlib.Core.Path.{subst}
use mathlib.Core.List.{append-nil}
use m_toolkit.Base.{
  ℕ, zero, suc, ◌+◌, ◌-◌, ◌<◌, ◌≤◌, ◌≡◌, refl, sym, ◌∙◌, arith, Bool, true, false, Option, none,
  some, List, [], ◌∷◌, ◌++◌, length, ltb, leb, if◌then◌else◌, inl, inr, ◌⊎◌,
}
use m_toolkit.SpeakerPulseaudio.AudioStream.{
  set_write_callback, cork, drain, Played, asks, Libraries, close, left_of, leave, written_call,
  request_turns, requested_end, stream_request_cb,
}
use m_toolkit.SpeakerPulseaudio.AudioStream.Protocol.{
  written, written-append, Playing, Closed, Playing-asks, close-Closed,
}
use m_toolkit.SpeakerPulseaudio.AudioStream.Requests.{
  Documented, Enough, Turned, request_turns-Turned,
}

module _ (lib : Libraries) (documented : Documented lib) (file : List ℕ) where
  -- After a callback: closed, or not cancelled, playing and given enough.
  abbrev pub Served : (target : ℕ) → (cancelled : Bool) → Played → Type 0
  Served target cancelled p =
      Closed file p ⊎ ((cancelled ≡ false) × Playing file p × Enough file target p)

  -- A turn does not change what was asked of the stream.
  abbrev Flagged : (cancelled : Bool) → Option (Bool × Played) → Type 0
  Flagged cancelled none = Unit
  Flagged cancelled (some (early, p)) = p.0.is_cancel ≡ cancelled

  requested_end-Served :
      (target : ℕ) (cancelled early : Bool) (p : Played)
      → p.0.is_cancel ≡ cancelled
      → Turned file target (some (early, p))
      → Served target cancelled (requested_end lib (early, p))
  requested_end-Served target cancelled true p same c = inl c
  requested_end-Served target cancelled false (t, calls) same (v, enough) =
      either t.is_pause t.is_cancel same
    where
      corked : Played → Bool → Played
      corked (t, calls) b = if b then (t, calls ++ cork true ∷ []) else (t, calls)

      corked-Playing : (b : Bool) → Playing file (corked (t, calls) b)
      corked-Playing true = Playing-asks file t calls (cork true ∷ []) v refl refl refl
      corked-Playing false = v

      corked-Enough : (b : Bool) → Enough file target (corked (t, calls) b)
      corked-Enough true =
          subst (λ l. (target ≤ length l) ⊎ (l ≡ file))
            (sym (written-append calls (cork true ∷ []) ∙ append-nil (written calls))) enough
      corked-Enough false = enough

      either :
          (b c : Bool)
          → c ≡ cancelled
          → Served target cancelled (if c then close (corked (t, calls) b) else corked (t, calls) b)
      either b true same = inl (close-Closed file (corked (t, calls) b) (corked-Playing b))
      either b false same = inr (sym same, corked-Playing b, corked-Enough b)

  request_turns-Flagged :
      (fuel turn requested : ℕ) (p : Played)
      → Flagged p.0.is_cancel (request_turns lib fuel turn requested p)
  unfolding request_turns close
  request_turns-Flagged zero turn requested p = tt
  request_turns-Flagged (suc fuel) turn requested (t, calls) =
      either (lib.begin_write turn requested) (λ n.
        request_turns-Flagged fuel (turn + 1)
          (requested - length (lib.read_raw n (left_of lib t)).0) (read n))
    where
      read : ℕ → Played
      read n =
          let (bytes, left) = lib.read_raw n (left_of lib t) in
          (leave lib left t, calls ++ written_call lib bytes ∷ [])

      decide :
          (q : Played) (short made done : Bool) (others : Option (Bool × Played))
          → q.0.is_cancel ≡ t.is_cancel
          → Flagged t.is_cancel others
          → Flagged t.is_cancel (
              if short
              then some (
                  if made
                  then (false, asks q (set_write_callback false ∷ drain ∷ []))
                  else (true, close (asks q (set_write_callback false ∷ drain ∷ []))))
              else (if done then some (false, q) else others))
      decide q true true done others same go = same
      decide q true false done others same go = same
      decide q false made true others same go = same
      decide q false made false others same go = go

      either :
          (o : Option ℕ)
          → ((n : ℕ)
              → Flagged t.is_cancel (
                  request_turns lib fuel
                    (turn + 1)
                    (requested - length (lib.read_raw n (left_of lib t)).0)
                    (read n)))
          → Flagged t.is_cancel (elim o [
            | none ↦ some (true, close (t, calls))
            | some n ↦
                let (bytes, left) = lib.read_raw n (left_of lib t) in
                let q : Played = (leave lib left t, calls ++ written_call lib bytes ∷ []) in
                if ltb (length bytes) n
                then some (
                    if lib.drain_made
                    then (false, asks q (set_write_callback false ∷ drain ∷ []))
                    else (true, close (asks q (set_write_callback false ∷ drain ∷ []))))
                else (if leb requested (length bytes)
                    then some (false, q)
                    else request_turns lib fuel (turn + 1) (requested - length bytes) q)
          ])
      either none go = refl
      either (some n) go = decide (read n) _ lib.drain_made _ _ refl (go n)

  -- Where libpulse takes at least one byte and libsndfile gives the bytes in order and fewer than asked
  -- for only at the end, a write callback on a stream that plays a file ends after at most one turn more
  -- than there are bytes to write. The stream is then closed, or it was not cancelled, plays on, and was
  -- given as many bytes more as the callback was to write, or the file to its end.
  pub stream_request_cb-Served :
      (fuel requested : ℕ) (p : Played)
      → Playing file p
      → requested < fuel
      → (p' : Played) × (stream_request_cb lib fuel requested p ≡ some p')
        × Served (length (written p.1) + requested) p.0.is_cancel p'
  unfolding stream_request_cb
  stream_request_cb-Served fuel requested p v enough =
      whole (request_turns lib fuel 0 requested p)
        (request_turns-Turned lib documented file fuel 0 requested
          (length (written p.1) + requested) p v enough (omega arith))
        (request_turns-Flagged fuel 0 requested p)
    where
      whole :
          (o : Option (Bool × Played))
          → Turned file (length (written p.1) + requested) o
          → Flagged p.0.is_cancel o
          → (p' : Played) × (elim o [ none ↦ none | some ended ↦ some (requested_end lib ended) ]
              ≡ some p')
            × Served (length (written p.1) + requested) p.0.is_cancel p'
      whole none v same = absurd v
      whole (some (early, q)) v same = (
        requested_end lib (early, q),
        refl,
        requested_end-Served (length (written p.1) + requested) p.0.is_cancel early q same v,
      )
