-- ===== src/Wire/Framed/Laws.antt =====
-- What a decoder returns on a whole message, on a part of one, and on one of another type.
use ion_dtn_contrib.Prelude.{
  ℕ, suc, ◌<◌, ◌≡◌, ◌≢◌, ap, sym, ◌∙◌, ◌==◌, List, [], ◌∷◌, ◌++◌, none, some, length, length-append,
  take, drop, take_front, pos, minus_one, arith, Bool-cases, inl, inr, ==_iff,
}
use ion_dtn_contrib.Wire.Pointer.{IsBuffer}
use ion_dtn_contrib.Wire.Reader.{Read, ◌>>=◌, r_init, r_u8, r_result}
use ion_dtn_contrib.Wire.Reader.Laws.{r_u8-Safe}
use ion_dtn_contrib.Wire.Reader.Exact.{Exact, Exact-bind, r_u8-Exact}
use ion_dtn_contrib.Wire.Reader.Stable.{Stable, Stable-bind, r_u8-Stable}
use ion_dtn_contrib.Wire.Reader.Sound.{Sound, r_u8-Sound}
use ion_dtn_contrib.Wire.Reader.Whole.{
  init-IsValid, skip_result, failed_result, result_off, read_whole, read_part,
}
use ion_dtn_contrib.Wire.Framed.{decode_typed}

module _ {M : Type 0} (type : ℕ) (body : Read M) where
  -- The type octet and the body, read whatever the type is.
  abbrev whole : Read M
  whole = r_u8 >>= λ t. body

  decode_typed_lem :
      (buf : List ℕ)
      → (r_u8 (r_init buf)).0 ≡ type
      → decode_typed type body buf ≡ (r_result (whole (r_init buf)).1, some (whole (r_init buf)).0)
  unfolding decode_typed ◌>>=◌
  decode_typed_lem buf e = rw ((==_iff _ type).1 e)

  type_first : (buf : List ℕ) → (r_u8 (r_init (type ∷ buf))).0 ≡ type
  unfolding r_u8 r_init
  type_first buf = ground arith

  whole-Exact : (m : M) (bs : List ℕ) → Exact body bs m → Exact whole (type ∷ bs) m
  whole-Exact m bs x = Exact-bind r_u8 (λ t. body) (type ∷ []) bs type m (r_u8-Exact type) x

  -- The decoder of a buffer that begins with a whole message.
  pub decode_typed-Exact :
      (m : M) (bs rest : List ℕ)
      → Exact body bs m
      → IsBuffer (type ∷ (bs ++ rest))
      → decode_typed type body (type ∷ (bs ++ rest)) ≡ (pos (suc (length bs)), some m)
  decode_typed-Exact m bs rest x b =
      decode_typed_lem (type ∷ (bs ++ rest)) (type_first (bs ++ rest))
      ∙ rw (read_whole whole m (type ∷ bs) (whole-Exact m bs x) rest b) (
          ap (λ z. (z, some m))
            (skip_result (suc (length bs)) _ (omega (arith, b.small, length-append bs rest))))

  -- Octets are missing: the decoder asks for more.
  pub decode_typed_part :
      (m : M) (bs front : List ℕ) (x : ℕ) (back : List ℕ)
      → 0 < type
      → Stable body
      → Exact body bs m
      → IsBuffer (type ∷ bs)
      → type ∷ bs ≡ front ++ (x ∷ back)
      → (decode_typed type body front).0 ≡ pos 0
  decode_typed_part m bs [] x back h st ex b e = unfold decode_typed r_u8 r_init in ground arith
  decode_typed_part m bs (y ∷ front) x back h st ex b e =
      let head : y ≡ type = cc in
      let first : (r_u8 (r_init (y ∷ front))).0 ≡ type = rw head (type_first front) in
      let stable = Stable-bind r_u8 (λ t. body) r_u8-Stable (λ t. st) in
      rw (decode_typed_lem (y ∷ front) first) (elim (Bool-cases (whole (r_init (y ∷ front))).1.ok) [
        | inl good ↦
            absurd (
              read_part whole m (type ∷ bs) (whole-Exact m bs ex) (y ∷ front) x back stable b e
                good)
        | inr bad ↦ failed_result (whole (r_init (y ∷ front))).1 bad
      ])

  -- A message of another type.
  pub decode_typed_other :
      (t : ℕ) (rest : List ℕ) → t ≢ type → decode_typed type body (t ∷ rest) ≡ (minus_one, none)
  unfolding decode_typed r_u8 r_init
  decode_typed_other t rest h = ground arith

  sound_type :
      (Q : M → List ℕ → Type 0) (buf : List ℕ) (n : ℕ)
      → Sound body Q
      → IsBuffer buf
      → (r_u8 (r_init buf)).0 ≡ type
      → (decode_typed type body buf).0 ≡ pos (suc n)
      → (m : M) × (bs : List ℕ) × ((decode_typed type body buf).1 ≡ some m)
        × Q m bs
        × (take (suc n) buf ≡ type ∷ bs)
        × (n ≡ length bs)
  unfolding ◌>>=◌ r_init
  sound_type Q buf n s b t e =
      let run = decode_typed_lem buf t in
      let r1 = (r_u8 (r_init buf)).1 in
      let v = init-IsValid buf b in
      let v1 = (r_u8-Safe.at (r_init buf) v).valid in
      let k = s.safe.at r1 v1 in
      let (good, off) = result_off (body r1).1 n k.valid (ap (λ z. z.0) (sym run) ∙ e) in
      let c = r_u8-Sound.at (r_init buf) v (k.sticky good) in
      let d = s.at r1 v1 good in
      let head : c.used ≡ type ∷ [] = c.meets.0 ∙ ap (λ l. l ∷ []) (omega (arith, t, c.meets.1)) in
      let len : n ≡ length d.used = omega (arith, off, d.moved, c.moved, ap length head) in
      let split = c.split ∙ ap (λ l. l ++ drop r1.off r1.buf) head ∙ ap (λ l. type ∷ l) d.split in
      (
        (body r1).0,
        d.used,
        ap (λ z. z.1) run,
        d.meets,
        take_front (suc n) buf (type ∷ d.used) _ split (ap suc len),
        len,
      )

  -- What the octets that a successful call consumed have to do with its message.
  pub decode_typed-Sound :
      (Q : M → List ℕ → Type 0) (buf : List ℕ) (n : ℕ)
      → Sound body Q
      → IsBuffer buf
      → (decode_typed type body buf).0 ≡ pos (suc n)
      → (m : M) × (bs : List ℕ) × ((decode_typed type body buf).1 ≡ some m)
        × Q m bs
        × (take (suc n) buf ≡ type ∷ bs)
        × (n ≡ length bs)
  decode_typed-Sound Q buf n s b e = elim (Bool-cases ((r_u8 (r_init buf)).0 == type)) [
    | inl same ↦ sound_type Q buf n s b ((==_iff _ type).0 same) e
    | inr other ↦ unfold decode_typed in ground (arith, other)
  ]
