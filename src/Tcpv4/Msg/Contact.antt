-- ===== src/Tcpv4/Msg/Contact.antt =====
-- The contact header of CLA/tcpv4/src/tcpv4msg.c: the magic, then the fields.
use ion_dtn_contrib.Prelude.{
  ℕ, suc, ◌≡◌, refl, ap, sym, ◌∙◌, true, false, List, ◌∷◌, ◌++◌, Option, none, some, length, take,
  take_front, drop, list_eq, list_eq_iff, pos, minus_one, arith, Bool-cases, Option-cases, inl, inr,
}
use ion_dtn_contrib.Wire.Pointer.{IsBuffer}
use ion_dtn_contrib.Wire.Reader.{Reader, Read, ◌>>=◌, r_init, r_bytes, r_result}
use ion_dtn_contrib.Wire.Reader.Laws.{r_bytes-Safe}
use ion_dtn_contrib.Wire.Reader.Exact.{Exact, Exact-bind, r_bytes-Exact}
use ion_dtn_contrib.Wire.Reader.Stable.{Stable, Stable-bind, r_bytes-Stable}
use ion_dtn_contrib.Wire.Reader.Sound.{r_bytes-Sound}
use ion_dtn_contrib.Wire.Reader.Whole.{
  init-IsValid, skip_result, failed_result, result_off, read_whole, read_part, part-IsValid,
}
use ion_dtn_contrib.Tcpv4.Msg.{decode_contact, contact_body}
use ion_dtn_contrib.Tcpv4.Msg.Bodies.{contact_body-Exact, contact_body-Stable, contact_body-Sound}
use ion_dtn_contrib.Tcpv4.Msg.Types.{Tcpv4Contact, tmsg_magic, tmsg_magic_len}
use ion_dtn_contrib.Tcpv4.Msg.Layout

abbrev whole : Read Tcpv4Contact
whole = r_bytes tmsg_magic_len >>= λ magic. contact_body

-- The magic is right or missing.
accepted :
    (buf : List ℕ)
    → (magic : Option (List ℕ)) → (r_bytes tmsg_magic_len (r_init buf)).0 ≡ magic
    → ((bs : List ℕ) → magic ≡ some bs → bs ≡ tmsg_magic)
    → decode_contact buf ≡ (r_result (whole (r_init buf)).1, some (whole (r_init buf)).0)
unfolding decode_contact ◌>>=◌
accepted buf none e h = rw e
accepted buf (some bs) e h = rw (e, (list_eq_iff bs tmsg_magic).1 (h bs refl))

-- Four octets that are not the magic.
rejected :
    (buf bs : List ℕ)
    → (r_bytes tmsg_magic_len (r_init buf)).0 ≡ some bs
    → list_eq bs tmsg_magic ≡ false
    → decode_contact buf ≡ (minus_one, none)
unfolding decode_contact
rejected buf bs e h = rw (e, h)

whole-Exact :
    (m : Tcpv4Contact) → Layout.IsContact m → Exact whole (tmsg_magic ++ Layout.contact_layout m) m
whole-Exact m v =
    Exact-bind _ _ _ _ _ _ (r_bytes-Exact tmsg_magic_len tmsg_magic refl) (contact_body-Exact m v)

whole-Stable : Stable whole
whole-Stable = Stable-bind _ _ (r_bytes-Stable tmsg_magic_len) (λ magic. contact_body-Stable)

-- Where there are octets the call succeeded.
r_bytes-some :
    (n : ℕ) (r : Reader) (bs : List ℕ)
    → r.ok ≡ true
    → (r_bytes n r).0 ≡ some bs
    → (r_bytes n r).1.ok ≡ true
unfolding r_bytes
r_bytes-some n r bs h e = ground arith

module _ (m : Tcpv4Contact) (v : Layout.IsContact m) where
  magic_found :
      (rest : List ℕ)
      → IsBuffer (tmsg_magic ++ rest)
      → (r_bytes tmsg_magic_len (r_init (tmsg_magic ++ rest))).0 ≡ some tmsg_magic
  magic_found rest b =
      ap (λ z. z.0)
        (read_whole _ (some tmsg_magic) tmsg_magic (r_bytes-Exact tmsg_magic_len tmsg_magic refl)
          rest b)

  pub decode_contact-Exact :
      (rest : List ℕ)
      → IsBuffer (tmsg_magic ++ (Layout.contact_layout m ++ rest))
      → decode_contact (tmsg_magic ++ (Layout.contact_layout m ++ rest)) ≡ (pos 6, some m)
  decode_contact-Exact rest b =
      let run = read_whole whole m _ (whole-Exact m v) rest b in
      accepted _ (some tmsg_magic) (magic_found (Layout.contact_layout m ++ rest) b) (λ bs e. cc)
      ∙ rw run (ap (λ z. (z, some m)) (skip_result 6 _ (omega arith)))

  -- Octets that a part of the header has are those of the magic.
  part_magic :
      (front : List ℕ) (x : ℕ) (back bs : List ℕ)
      → IsBuffer (tmsg_magic ++ Layout.contact_layout m)
      → tmsg_magic ++ Layout.contact_layout m ≡ front ++ (x ∷ back)
      → (r_bytes tmsg_magic_len (r_init front)).0 ≡ some bs
      → bs ≡ tmsg_magic
  unfolding r_init
  part_magic front x back bs b e h =
      let f = r_bytes tmsg_magic_len in
      let good = r_bytes-some tmsg_magic_len (r_init front) bs refl h in
      let v = part-IsValid _ front (x ∷ back) b e in
      let same = (r_bytes-Stable tmsg_magic_len).at (x ∷ back) (r_init front) v.0 v.1 good in
      let all = rw e at (magic_found (Layout.contact_layout m) b) in
      let eq : some bs ≡ some tmsg_magic = sym h ∙ sym (ap (λ z. z.0) same) ∙ all in cc

  pub decode_contact_part :
      (front : List ℕ) (x : ℕ) (back : List ℕ)
      → IsBuffer (tmsg_magic ++ Layout.contact_layout m)
      → tmsg_magic ++ Layout.contact_layout m ≡ front ++ (x ∷ back)
      → (decode_contact front).0 ≡ pos 0
  decode_contact_part front x back b e =
      let magic = part_magic front x back in
      rw (accepted front _ refl (λ bs h. magic bs b e h))
        (elim (Bool-cases (whole (r_init front)).1.ok) [
          | inl good ↦
              absurd (read_part whole m _ (whole-Exact m v) front x back whole-Stable b e good)
          | inr bad ↦ failed_result (whole (r_init front)).1 bad
        ])

abbrev IsHeader : List ℕ → ℕ → Tcpv4Contact → Type 0
IsHeader buf n m =
    ((decode_contact buf).1 ≡ some m)
    × Layout.IsContact m
    × (take (suc n) buf ≡ tmsg_magic ++ Layout.contact_layout m)

accepted-Sound :
    (buf : List ℕ) (n : ℕ)
    → IsBuffer buf
    → ((bs : List ℕ) → (r_bytes tmsg_magic_len (r_init buf)).0 ≡ some bs → bs ≡ tmsg_magic)
    → (decode_contact buf).0 ≡ pos (suc n)
    → (m : Tcpv4Contact) × IsHeader buf n m × (suc n ≡ 6)
unfolding ◌>>=◌ r_init
accepted-Sound buf n b h e =
    let run = accepted buf _ refl h in
    let r1 = (r_bytes tmsg_magic_len (r_init buf)).1 in
    let v = init-IsValid buf b in
    let v1 = ((r_bytes-Safe tmsg_magic_len).at (r_init buf) v).valid in
    let k = contact_body-Sound.safe.at r1 v1 in
    let (good, off) = result_off (contact_body r1).1 n k.valid (ap (λ z. z.0) (sym run) ∙ e) in
    let c = (r_bytes-Sound tmsg_magic_len).at (r_init buf) v (k.sticky good) in
    let d = contact_body-Sound.at r1 v1 good in
    let magic : c.used ≡ tmsg_magic = h c.used c.meets.0 in
    let (m, r2) = contact_body r1 in
    let len : suc n ≡ 6 =
      omega (arith, off, d.moved, c.moved, ap length magic, ap length d.meets.0) in
    let split =
      c.split
      ∙ ap (λ l. l ++ drop r1.off r1.buf) magic
      ∙ ap (λ l. tmsg_magic ++ l) (d.split ∙ ap (λ l. l ++ drop r2.off r2.buf) d.meets.0) in
    (
      m,
      (
        ap (λ z. z.1) run,
        d.meets.1,
        take_front (suc n) buf (tmsg_magic ++ Layout.contact_layout m) _ split len,
      ),
      len,
    )

pub decode_contact-Sound :
    (buf : List ℕ) (n : ℕ)
    → IsBuffer buf
    → (decode_contact buf).0 ≡ pos (suc n)
    → (m : Tcpv4Contact) × IsHeader buf n m × (suc n ≡ 6)
decode_contact-Sound buf n b e = elim (Option-cases (r_bytes tmsg_magic_len (r_init buf)).0) [
  | inl missing ↦ accepted-Sound buf n b (λ bs h. cc) e
  | inr (bs, found) ↦ elim (Bool-cases (list_eq bs tmsg_magic)) [
    | inl right ↦
        let magic = (list_eq_iff bs tmsg_magic).0 right in accepted-Sound buf n b (λ cs h. cc) e
    | inr wrong ↦ cc (rejected buf bs found wrong)
  ]
]
