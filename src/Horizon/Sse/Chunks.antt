-- ===== src/Horizon/Sse/Chunks.antt =====
-- src/horizon.rs, `stream_once`: the events that are handled do not depend on the chunks.
use stellar_gate.Prelude.{
  ℕ, zero, suc, ◌+◌, ◌≤◌, ◌<◌, ◌≡◌, refl, ap, sym, ◌∙◌, inl, inr, none, some, List, [], ◌∷◌, ◌++◌,
  map, arith, Option-cases, length, take, drop,
}
use stellar_gate.Webhook.{Libs, Config, Env}
use stellar_gate.Horizon.Sse.{
  Decoding, Stream, find_event_end, handle_stream_event, handle_events, receive, stream_chunks,
  stream_once,
}
use stellar_gate.Horizon.Sse.Delimiter.{find_event_end-append}

abbrev pub concat : List (List ℕ) → List ℕ
concat [] = []
concat (c ∷ chunks) = c ++ concat chunks

append_nil : (xs : List ℕ) → xs ++ [] ≡ xs
append_nil [] = refl
append_nil (x ∷ xs) = ap (λ ys. x ∷ ys) (append_nil xs)

append_assoc : (xs ys zs : List ℕ) → (xs ++ ys) ++ zs ≡ xs ++ (ys ++ zs)
append_assoc [] ys zs = refl
append_assoc (x ∷ xs) ys zs = ap (λ l. x ∷ l) (append_assoc xs ys zs)

length-drop : (n : ℕ) (xs : List ℕ) → n ≤ length xs → length (drop n xs) + n ≡ length xs
length-drop zero xs h = omega arith
length-drop (suc n) [] h = absurd (omega arith)
length-drop (suc n) (x ∷ xs) h = omega (arith, length-drop n xs (omega arith))

drop-append : (n : ℕ) (xs ys : List ℕ) → n ≤ length xs → drop n (xs ++ ys) ≡ drop n xs ++ ys
drop-append zero xs ys h = refl
drop-append (suc n) [] ys h = absurd (omega arith)
drop-append (suc n) (x ∷ xs) ys h = drop-append n xs ys (omega arith)

take-append : (n : ℕ) (xs ys : List ℕ) → n ≤ length xs → take n (xs ++ ys) ≡ take n xs
take-append zero xs ys h = refl
take-append (suc n) [] ys h = absurd (omega arith)
take-append (suc n) (x ∷ xs) ys h = ap (λ l. x ∷ l) (take-append n xs ys (omega arith))

-- An event that is found ends inside the buffer.
inside : (s : List ℕ) (end : ℕ) → find_event_end s ≡ some end → (0 < end) × (end ≤ length s)
inside s end h = let r = find_event_end-append s [] end h in (r.1, r.2)

module _ (decoding : Decoding) (libs : Libs) (config : Config) (env : ℕ → Env) where
  abbrev run : ℕ → List ℕ → Stream → List ℕ × Stream
  run fuel buf s = handle_events decoding libs config env fuel buf s

  abbrev handled : List ℕ → ℕ → Stream → Stream
  handled buf end s =
      handle_stream_event decoding libs config env (decoding.from_utf8_lossy (take end buf)) s

  run-none :
      (fuel : ℕ) (buf : List ℕ) (s : Stream) → find_event_end buf ≡ none → run fuel buf s ≡ (buf, s)
  unfolding handle_events
  run-none zero buf s h = refl
  run-none (suc fuel) buf s h = rw (h, handle_events)

  run-some :
      (fuel : ℕ) (buf : List ℕ) (s : Stream) (end : ℕ)
      → find_event_end buf ≡ some end
      → run (suc fuel) buf s ≡ run fuel (drop end buf) (handled buf end s)
  unfolding handle_events
  run-some fuel buf s end h = rw (h, handle_events)

  -- Any fuel from the length of the buffer on gives the same.
  run-enough :
      (f g : ℕ) (buf : List ℕ) (s : Stream)
      → length buf ≤ f
      → length buf ≤ g
      → run f buf s ≡ run g buf s
  run-enough zero g buf s hf hg = elim (Option-cases (find_event_end buf)) [
    | inl e ↦ run-none zero buf s e ∙ sym (run-none g buf s e)
    | inr (end, e) ↦ absurd (omega (arith, inside buf end e))
  ]
  run-enough (suc f) zero buf s hf hg = elim (Option-cases (find_event_end buf)) [
    | inl e ↦ run-none (suc f) buf s e ∙ sym (run-none zero buf s e)
    | inr (end, e) ↦ absurd (omega (arith, inside buf end e))
  ]
  run-enough (suc f) (suc g) buf s hf hg = elim (Option-cases (find_event_end buf)) [
    | inl e ↦ run-none (suc f) buf s e ∙ sym (run-none (suc g) buf s e)
    | inr (end, e) ↦
        let i = inside buf end e in
        let shorter = length-drop end buf i.1 in
        run-some f buf s end e
        ∙ run-enough f g (drop end buf) (handled buf end s) (omega (arith, i.0, shorter))
            (omega (arith, i.0, shorter))
        ∙ sym (run-some g buf s end e)
  ]

  abbrev drained : List ℕ → Stream → List ℕ × Stream
  drained buf s = run (length buf) buf s

  drained-some :
      (buf : List ℕ) (s : Stream) (end : ℕ)
      → find_event_end buf ≡ some end
      → drained buf s ≡ drained (drop end buf) (handled buf end s)
  drained-some buf s end e =
      let i = inside buf end e in
      let shorter = length-drop end buf i.1 in
      run-enough (length buf) (suc (length buf)) buf s (omega arith) (omega arith)
      ∙ run-some (length buf) buf s end e
      ∙ run-enough (length buf) (length (drop end buf)) (drop end buf) (handled buf end s)
          (omega (arith, shorter)) (omega arith)

  -- Draining a longer buffer drains its front first.
  -- The first event of a longer buffer is that of its front.
  drained-front :
      (buf more : List ℕ) (s : Stream) (end : ℕ)
      → find_event_end buf ≡ some end
      → drained (buf ++ more) s ≡ drained (drop end buf ++ more) (handled buf end s)
  drained-front buf more s end e =
      let i = inside buf end e in
      drained-some (buf ++ more) s end (find_event_end-append buf more end e).0
      ∙ ap (λ rest. drained rest (handled (buf ++ more) end s)) (drop-append end buf more i.1)
      ∙ ap
          (λ block.
            drained (drop end buf ++ more)
              (handle_stream_event decoding libs config env (decoding.from_utf8_lossy block) s))
          (take-append end buf more i.1)

  drained-append :
      (n : ℕ) (buf more : List ℕ) (s : Stream)
      → length buf ≤ n
      → drained (buf ++ more) s ≡ drained ((drained buf s).0 ++ more) (drained buf s).1
  drained-append zero buf more s h = elim (Option-cases (find_event_end buf)) [
    | inl e ↦ sym (ap (λ r. drained (r.0 ++ more) r.1) (run-none (length buf) buf s e))
    | inr (end, e) ↦ absurd (omega (arith, inside buf end e))
  ]
  drained-append (suc n) buf more s h = elim (Option-cases (find_event_end buf)) [
    | inl e ↦ sym (ap (λ r. drained (r.0 ++ more) r.1) (run-none (length buf) buf s e))
    | inr (end, e) ↦
        let i = inside buf end e in
        let shorter = length-drop end buf i.1 in
        drained-front buf more s end e
        ∙ drained-append n (drop end buf) more (handled buf end s) (omega (arith, i.0, shorter))
        ∙ sym (ap (λ r. drained (r.0 ++ more) r.1) (drained-some buf s end e))
  ]

  abbrev received : List ℕ → List ℕ × Stream → List ℕ × Stream
  received chunk r = receive decoding libs config env chunk r

  received-received :
      (c d : List ℕ) (r : List ℕ × Stream) → received d (received c r) ≡ received (c ++ d) r
  received-received c d r =
      sym (drained-append (length (r.0 ++ c)) (r.0 ++ c) d r.1 (omega arith))
      ∙ ap (λ buf. drained buf r.1) (append_assoc r.0 c d)

  abbrev connection : List (List ℕ) → Stream → Stream
  connection chunks s = stream_once decoding libs config env (map some chunks) s

  chunks-received :
      (chunks : List (List ℕ)) (c : List ℕ) (r : List ℕ × Stream)
      → stream_chunks decoding libs config env (map some chunks) (received c r)
        ≡ (received (c ++ concat chunks) r).1
  unfolding stream_chunks
  chunks-received [] c r = ap (λ xs. (received xs r).1) (sym (append_nil c))
  chunks-received (d ∷ chunks) c r =
      ap (stream_chunks decoding libs config env (map some chunks)) (received-received c d r)
      ∙ chunks-received chunks (c ++ d) r
      ∙ ap (λ xs. (received xs r).1) (append_assoc c d (concat chunks))

  connection-concat :
      (chunks : List (List ℕ)) (s : Stream)
      → connection chunks s ≡ (received (concat chunks) ([], s)).1
  unfolding stream_once stream_chunks handle_events
  connection-concat [] s = refl
  connection-concat (c ∷ chunks) s = chunks-received chunks c ([], s)

  -- Two connections that start in one state and bring the same bytes, cut into chunks in any way,
  -- leave the same cursor and the same state.
  pub stream_once-concat :
      (xs ys : List (List ℕ)) (s : Stream)
      → concat xs ≡ concat ys
      → stream_once decoding libs config env (map some xs) s
        ≡ stream_once decoding libs config env (map some ys) s
  stream_once-concat xs ys s e =
      connection-concat xs s
      ∙ ap (λ bytes. (received bytes ([], s)).1) e
      ∙ sym (connection-concat ys s)
