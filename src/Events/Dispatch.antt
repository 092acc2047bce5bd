-- ===== src/Events/Dispatch.antt =====
-- Which handler a log line reaches.
use switchboard_sdk.Prelude.{
  ◌∙◌, sym, ap, subst, ◌≡◌, ◌<◌, refl, Option, some, none, List, [], ◌∷◌, ◌++◌, any, find, take,
  drop, length, arith, true, false, Bool-cases, Option-cases, inl, inr, leb,
}
use switchboard_sdk.Prelude.Words.{Bytes, bytes_eq, bytes_eq→eq}
use switchboard_sdk.Events.{
  Effect, handled, slept, dispatch, dispatch_all, dispatch_line, strip_prefix, program_data,
}

strip_prefix-append : (p line rest : Bytes) → strip_prefix p line ≡ some rest → line ≡ p ++ rest
unfolding strip_prefix
strip_prefix-append [] line rest e = ground arith
strip_prefix-append (p ∷ ps) [] rest e = cc
strip_prefix-append (p ∷ ps) (c ∷ line) rest e = ground (arith, strip_prefix-append ps line rest)

append-strip_prefix : (p rest : Bytes) → strip_prefix p (p ++ rest) ≡ some rest
unfolding strip_prefix
append-strip_prefix [] rest = refl
append-strip_prefix (p ∷ ps) rest = ground (arith, append-strip_prefix ps rest)

undecodable :
    (line encoded : Bytes) {A : Type 0}
    → line ≡ program_data ++ encoded
    → strip_prefix program_data line ≡ none
    → A
undecodable line encoded l e =
    let s = append-strip_prefix program_data encoded in
    absurd (cc (s, ap (strip_prefix program_data) l, e))

same_data :
    (line encoded encoded₂ : Bytes)
    → strip_prefix program_data line ≡ some encoded
    → line ≡ program_data ++ encoded₂
    → encoded ≡ encoded₂
same_data line encoded encoded₂ e l =
    let s = append-strip_prefix program_data encoded₂ in
    let t : some encoded ≡ some encoded₂ = sym e ∙ ap (strip_prefix program_data) l ∙ s in
    ground arith

find-match :
    (disc : Bytes) (handlers : List Bytes) (h : Bytes)
    → find (λ x. bytes_eq x disc) handlers ≡ some h
    → (h ≡ disc) × (any (λ x. bytes_eq x disc) handlers ≡ true)
find-match disc [] h e = cc
find-match disc (x ∷ handlers) h e = elim (Bool-cases (bytes_eq x disc)) [
  | inl hit ↦ (let same : x ≡ h = ground arith in sym same ∙ bytes_eq→eq x disc hit, rw hit refl)
  | inr miss ↦ let (a, b) = find-match disc handlers h (rw miss at e) in (a, rw miss b)
]

find-none :
    (disc : Bytes) (handlers : List Bytes)
    → find (λ x. bytes_eq x disc) handlers ≡ none
    → any (λ x. bytes_eq x disc) handlers ≡ false
find-none disc [] e = refl
find-none disc (x ∷ handlers) e = elim (Bool-cases (bytes_eq x disc)) [
  | inl hit ↦ cc (rw hit at e)
  | inr miss ↦ rw miss (find-none disc handlers (rw miss at e))
]

module _ (decode : Bytes → Option Bytes) (handlers : List Bytes) where
  -- What the effect of a line says about it.
  abbrev pub Dispatches : Bytes → Option Effect → Type 0
  Dispatches line (some (slept ms)) = ⊥
  Dispatches line (some (handled disc input)) =
      (encoded : Bytes) × (decoded : Bytes) × (line ≡ program_data ++ encoded)
      × (decode encoded ≡ some decoded)
      × (8 < length decoded)
      × (disc ≡ take 8 decoded)
      × (input ≡ drop 8 decoded)
      × (any (λ h. bytes_eq h disc) handlers ≡ true)
  Dispatches line none =
      (encoded decoded : Bytes)
      → line ≡ program_data ++ encoded
      → decode encoded ≡ some decoded
      → 8 < length decoded
      → any (λ h. bytes_eq h (take 8 decoded)) handlers ≡ false

  same_decoded :
      (line : Bytes) {encoded decoded encoded₂ decoded₂ : Bytes}
      → strip_prefix program_data line ≡ some encoded
      → decode encoded ≡ some decoded
      → line ≡ program_data ++ encoded₂
      → decode encoded₂ ≡ some decoded₂
      → decoded ≡ decoded₂
  same_decoded line {encoded} {decoded} {encoded₂} {decoded₂} e d l d₂ =
      let t : some decoded ≡ some decoded₂ =
        sym d ∙ ap decode (same_data line encoded encoded₂ e l) ∙ d₂ in
      ground arith

  -- A log line calls a handler exactly when it is a line of program data that decodes to more than eight
  -- bytes, of which the first eight are the handler's discriminator; the handler gets the rest.
  pub dispatch_line-Dispatches :
      (line : Bytes) → Dispatches line (dispatch_line decode handlers line)
  unfolding dispatch_line strip_prefix
  dispatch_line-Dispatches line = elim (Option-cases (strip_prefix program_data line)) [
    | inl e ↦ rw e (λ encoded decoded l d long. undecodable line encoded l e)
    | inr (encoded, e) ↦ elim (Option-cases (decode encoded)) [
      | inl d ↦
          rw (e, d) (λ encoded₂ decoded₂ l d₂ long. cc (d, d₂, same_data line encoded encoded₂ e l))
      | inr (decoded, d) ↦ elim (Bool-cases (leb (length decoded) 8)) [
        | inl short ↦
            rw (e, d, short)
              (λ encoded₂ decoded₂ l d₂ long.
                let n : decoded ≡ decoded₂ = same_decoded line e d l d₂ in
                absurd (ground (arith, n, short, long)))
        | inr long ↦ elim (Option-cases (find (λ h. bytes_eq h (take 8 decoded)) handlers)) [
          | inl f ↦
              rw (e, d, long, f)
                (λ encoded₂ decoded₂ l d₂ more.
                  let n : decoded ≡ decoded₂ = same_decoded line e d l d₂ in
                  rw n at (find-none (take 8 decoded) handlers f))
          | inr (disc, f) ↦
              rw (e, d, long, f)
                (let (same, found) = find-match (take 8 decoded) handlers disc f in
                  (
                    encoded,
                    decoded,
                    strip_prefix-append program_data line encoded e,
                    d,
                    ground arith,
                    same,
                    refl,
                    rw (← same) at found,
                  ))
        ]
      ]
    ]
  ]

  -- The effects of log lines, in order: of each the call that it makes, if it makes one.
  abbrev pub calls : Option Effect → List Effect → List Effect
  calls none rest = rest
  calls (some e) rest = e ∷ rest

  abbrev pub Delivered : List Bytes → List Effect → Type 0
  Delivered [] effects = effects ≡ []
  Delivered (line ∷ lines) effects =
      (o : Option Effect) × (rest : List Effect) × Dispatches line o
      × Delivered lines rest
      × (effects ≡ calls o rest)

  calls-elim :
      (o : Option Effect) (rest : List Effect)
      → elim o as (λ _. List Effect) [ none ↦ rest | some e ↦ e ∷ rest ] ≡ calls o rest
  calls-elim none rest = refl
  calls-elim (some e) rest = refl

  calls-append :
      (o : Option Effect) (rest more : List Effect) → calls o rest ++ more ≡ calls o (rest ++ more)
  calls-append none rest more = refl
  calls-append (some e) rest more = refl

  dispatch-Delivered : (lines : List Bytes) → Delivered lines (dispatch decode handlers lines)
  unfolding dispatch
  dispatch-Delivered [] = refl
  dispatch-Delivered (line ∷ lines) =
      let rest : List Effect = dispatch decode handlers lines in
      let o : Option Effect = dispatch_line decode handlers line in
      (o, rest, dispatch_line-Dispatches line, dispatch-Delivered lines, calls-elim o rest)

  Delivered-append :
      (xs ys : List Bytes) (effects more : List Effect)
      → Delivered xs effects
      → Delivered ys more
      → Delivered (xs ++ ys) (effects ++ more)
  Delivered-append [] ys effects more d e =
      subst (Delivered ys) (ap (λ (l : List Effect). l ++ more) (sym d)) e
  Delivered-append (x ∷ xs) ys effects more (o, rest, line, others, all) e = (
    o,
    rest ++ more,
    line,
    Delivered-append xs ys rest more others e,
    ap (λ (l : List Effect). l ++ more) all ∙ calls-append o rest more,
  )

  -- The lines of the events of a stream.
  abbrev pub all_lines : List (List Bytes) → List Bytes
  all_lines [] = []
  all_lines (lines ∷ events) = lines ++ all_lines events

  pub dispatch_all-Delivered :
      (events : List (List Bytes))
      → Delivered (all_lines events) (dispatch_all decode handlers events)
  unfolding dispatch_all
  dispatch_all-Delivered [] = refl
  dispatch_all-Delivered (lines ∷ events) =
      Delivered-append lines (all_lines events) (dispatch decode handlers lines)
        (dispatch_all decode handlers events) (dispatch-Delivered lines)
        (dispatch_all-Delivered events)
