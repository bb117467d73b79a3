-- ===== src/Wire/Writer/Laws.antt =====
-- Each writer call appends a fixed list of octets or fails for want of room.
use ion_dtn_contrib.Prelude.{
  ℕ, zero, suc, if◌then◌else◌, ◌+◌, ◌/◌, ◌%◌, ◌^◌, ◌≤◌, ◌<◌, ◌≡◌, refl, sym, ap, ◌∙◌, Bool, true,
  false, ◌&&◌, List, [], ◌∷◌, ◌++◌, append-nil, append_assoc, length, length-append, length-take,
  take, take-length, Option, leb, arith, ℤ, pos, minus_one, int_cast-pos, Bool-cases, inl, inr,
}
use mathlib.Core.Path.{subst}
use ion_dtn_contrib.Wire.Pointer.{octets, Points}
use ion_dtn_contrib.Wire.Octets.{be_four, be_eight}
use ion_dtn_contrib.Wire.Size.{be}
use ion_dtn_contrib.Wire.Writer.{Writer, ◌▷◌, w_init, w_u8, w_u16, w_u32, w_u64, w_bytes, w_result}

-- The octets fit the buffer, and no buffer is as long as the largest int.
pub record IsValid (w : Writer) : Type 0 where
  pub fits : length w.out ≤ w.cap
  pub small : w.cap < 2 ^ 31

-- What a call does that writes the octets `bs`.
pub record Wrote (bs : List ℕ) (w w' : Writer) : Type 0 where
  pub same_cap : w'.cap ≡ w.cap
  pub valid : IsValid w'
  pub has_room : w'.ok ≡ (w.ok && leb (length w.out + length bs) w.cap)
  pub octets : w'.ok ≡ true → w'.out ≡ w.out ++ bs

abbrev pub Appends : (Writer → Writer) → List ℕ → Type 0
Appends f bs = (w : Writer) → IsValid w → Wrote bs w (f w)

module _ (xs ys : List ℕ) (u v w : Writer) (p : Wrote xs u v) (q : Wrote ys v w) where
  trans_octets : w.ok ≡ true → w.out ≡ u.out ++ (xs ++ ys)
  trans_octets e =
      q.octets e
      ∙ ap (λ l. l ++ ys) (p.octets (ground (arith, q.has_room)))
      ∙ append_assoc u.out xs ys

  trans_room : w.ok ≡ (u.ok && leb (length u.out + length (xs ++ ys)) u.cap)
  trans_room = elim (Bool-cases v.ok) [
    | inl good ↦ ground (
      arith,
      q.has_room,
      p.has_room,
      p.same_cap,
      length-append xs ys,
      length-append u.out xs,
      ap length (p.octets good),
    )
    | inr bad ↦ ground (arith, q.has_room, p.has_room, length-append xs ys)
  ]

  Wrote-trans : Wrote (xs ++ ys) u w
  Wrote-trans = record {
    same_cap = q.same_cap ∙ p.same_cap;
    valid = q.valid;
    has_room = trans_room;
    octets = trans_octets;
  }

pub Appends-bind :
    (f g : Writer → Writer) (xs ys : List ℕ)
    → Appends f xs
    → Appends g ys
    → Appends (λ w. w ▷ f ▷ g) (xs ++ ys)
Appends-bind f g xs ys p q w h = Wrote-trans xs ys w (f w) (g (f w)) (p w h) (q (f w) (p w h).valid)

pub w_u8-Appends : (v : ℕ) → Appends (w_u8 v) (v ∷ [])
unfolding w_u8
w_u8-Appends v w h = record {
  same_cap = ground arith;
  valid = ground (arith, length-append w.out (v ∷ []));
  has_room = ground arith;
  octets = ground arith;
}

pub w_u8-Appends-be : (v : ℕ) → v < 2 ^ 8 → Appends (w_u8 v) (be 1 v)
w_u8-Appends-be v h = let e : v % 256 ≡ v = omega arith in rw e (w_u8-Appends v)

Appends-eq : (f : Writer → Writer) {xs ys : List ℕ} → xs ≡ ys → Appends f xs → Appends f ys
Appends-eq f e h = subst (Appends f) e h

pub w_u16-Appends : (v : ℕ) → Appends (w_u16 v) (be 2 v)
unfolding w_u16
w_u16-Appends v =
    Appends-bind (w_u8 (v / 2 ^ 8 % 2 ^ 8)) (w_u8 (v % 2 ^ 8)) _ _ (w_u8-Appends _) (w_u8-Appends _)

pub w_u32-Appends : (v : ℕ) → Appends (w_u32 v) (be 4 v)
unfolding w_u32
w_u32-Appends v = Appends-eq _ (be_four v) (
    Appends-bind (w_u16 (v / 2 ^ 16 % 2 ^ 16)) (w_u16 (v % 2 ^ 16)) _ _ (w_u16-Appends _)
      (w_u16-Appends _))

pub w_u64-Appends : (v : ℕ) → Appends (w_u64 v) (be 8 v)
unfolding w_u64
w_u64-Appends v = Appends-eq _ (be_eight v) (
    Appends-bind (w_u32 (v / 2 ^ 32 % 2 ^ 32)) (w_u32 (v % 2 ^ 32)) _ _ (w_u32-Appends _)
      (w_u32-Appends _))

w_bytes_octets :
    (p : List ℕ) (n : ℕ) (w : Writer)
    → (w_bytes p n w).ok ≡ true
    → (w_bytes p n w).out ≡ w.out ++ take n p
unfolding w_bytes
w_bytes_octets p zero w e = ground (arith, append-nil w.out)
w_bytes_octets p (suc n) w e = ground arith

pub w_bytes-Appends :
    (p : List ℕ) (n : ℕ) → n ≤ length p → n < 2 ^ 32 → Appends (w_bytes p n) (take n p)
unfolding w_bytes
w_bytes-Appends p n h small w v = record {
  same_cap = ground arith;
  valid = ground (arith, length-append w.out (take n p), length-take n p);
  has_room = ground (arith, length-take n p);
  octets = w_bytes_octets p n w;
}

-- A part that is written only if `b` holds.
pub Appends-if :
    (b : Bool) (f : Writer → Writer) (xs : List ℕ)
    → (b ≡ true → Appends f xs)
    → Appends (λ w. if b then f w else w) (if b then xs else [])
Appends-if true f xs h = h refl
Appends-if false f xs h = λ w v. record {
  same_cap = refl;
  valid = v;
  has_room = ground (arith, v.fits);
  octets = λ e. sym (append-nil w.out);
}

-- What an encoder returns that writes `bs` to a buffer of `cap` octets.
pub record Encodes (cap : ℕ) (result : ℤ × List ℕ) (bs : List ℕ) : Type 0 where
  pub written : length bs ≤ cap → result ≡ (pos (length bs), bs)
  pub no_room : cap < length bs → result.0 ≡ minus_one

-- The octets at a pointer with its length.
pub w_octets-Appends :
    (p : Option (List ℕ)) (n : ℕ)
    → Points p n
    → n < 2 ^ 32
    → Appends (w_bytes (octets p) n) (octets p)
w_octets-Appends p n h small =
    Appends-eq _ (rw (← h.size) (take-length (octets p)))
      (w_bytes-Appends (octets p) n (omega (arith, h.size)) small)

pub Appends-Encodes :
    (cap : ℕ) (f : Writer → Writer) (bs : List ℕ)
    → cap < 2 ^ 31
    → Appends f bs
    → Encodes cap (w_result (w_init cap ▷ f)) bs
unfolding w_result w_init
Appends-Encodes cap f bs small h =
    let wrote = h (w_init cap) (record { fits = omega arith; small = small }) in
    record {
      written = ground (arith, wrote.has_room, wrote.octets, int_cast-pos (length bs));
      no_room = ground (arith, wrote.has_room);
    }
