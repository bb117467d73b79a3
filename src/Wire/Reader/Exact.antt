-- ===== src/Wire/Reader/Exact.antt =====
-- Reading back what was written: a call that finds the octets of a value returns the value, with
-- the offset behind them.
use ion_dtn_contrib.Prelude.{
  ℕ, ◌+◌, ◌/◌, ◌%◌, ◌^◌, ◌≤◌, ◌<◌, ◌≡◌, refl, ap, ◌∙◌, true, List, [], ◌∷◌, ◌++◌, append-nil,
  append_assoc, some, length, length-append, length-drop, take, drop, drop-drop, drop-get_or,
  drop-length_append, take-length_append, arith,
}
use mathlib.Core.Path.{subst}
use ion_dtn_contrib.Wire.Size.{be}
use ion_dtn_contrib.Wire.Octets.{be_four, be_eight, join_u16, join_u32, join_u64}
use ion_dtn_contrib.Wire.Reader.{Reader, Read, ◌>>=◌, give, r_u8, r_u16, r_u32, r_u64, r_bytes}
use ion_dtn_contrib.Wire.Reader.Laws.{IsValid}

-- The octets `bs` are next, `rest` comes behind them.
pub record Ahead (bs rest : List ℕ) (r : Reader) : Type 0 where
  pub valid : IsValid r
  pub going : r.ok ≡ true
  pub next : drop r.off r.buf ≡ bs ++ rest

abbrev pub skip : ℕ → Reader → Reader
skip n r = record r { off = r.off + n }

pub record Exact {A : Type 0} (f : Read A) (bs : List ℕ) (a : A) : Type 0 where
  pub at : (r : Reader) (rest : List ℕ) → Ahead bs rest r → f r ≡ (a, skip (length bs) r)

room : (bs rest : List ℕ) (r : Reader) → Ahead bs rest r → r.off + length bs ≤ length r.buf
room bs rest r h =
    omega (arith, h.valid.within, ap length h.next, length-drop r.off r.buf, length-append bs rest)

pub skip-Ahead :
    (bs cs rest : List ℕ) (r : Reader)
    → Ahead (bs ++ cs) rest r
    → Ahead bs (cs ++ rest) r × Ahead cs rest (skip (length bs) r)
skip-Ahead bs cs rest r h = (first, second)
  where
    split : drop r.off r.buf ≡ bs ++ (cs ++ rest)
    split = h.next ∙ append_assoc bs cs rest

    first : Ahead bs (cs ++ rest) r
    first = record { valid = h.valid; going = h.going; next = split }

    second : Ahead cs rest (skip (length bs) r)
    second = record {
      valid = record {
        within = room bs (cs ++ rest) r first;
        small = h.valid.small;
        octets = h.valid.octets;
      };
      going = h.going;
      next =
          drop-drop r.off (length bs) (r.off + length bs) r.buf refl
          ∙ ap (drop (length bs)) split
          ∙ drop-length_append bs (cs ++ rest);
    }

module _ {A : Type 0} where
  pub Exact-give : (a : A) → Exact (give a) [] a
  unfolding give
  Exact-give a = record { at = λ r rest h. ground arith }

  pub Exact-give_eq : (a b : A) → a ≡ b → Exact (give a) [] b
  Exact-give_eq a b e = subst (Exact (give a) []) e (Exact-give a)

  pub Exact-eq : (f : Read A) {bs cs : List ℕ} {a : A} → bs ≡ cs → Exact f bs a → Exact f cs a
  Exact-eq f {a} e h = subst (λ l. Exact f l a) e h

  pub Exact-eq_value : (f : Read A) {bs : List ℕ} {a b : A} → a ≡ b → Exact f bs a → Exact f bs b
  Exact-eq_value f {bs} e h = subst (Exact f bs) e h

module _ {A B : Type 0} where
  pub Exact-bind :
      (f : Read A) (g : A → Read B) (bs cs : List ℕ) (a : A) (b : B)
      → Exact f bs a
      → Exact (g a) cs b
      → Exact (f >>= g) (bs ++ cs) b
  unfolding ◌>>=◌
  Exact-bind f g bs cs a b p q = record {
    at = λ r rest h.
        let (first, second) = skip-Ahead bs cs rest r h in
        rw (p.at r (cs ++ rest) first) (
          q.at (skip (length bs) r) rest second
          ∙ ap (λ n. (b, record r { off = n })) (omega (arith, length-append bs cs)));
  }

module _ {A B : Type 0} where
  -- The last read of a block, whose value is wrapped up.
  pub Exact-map :
      (f : Read A) (h : A → B) (bs : List ℕ) (a : A)
      → Exact f bs a
      → Exact (f >>= λ x. give (h x)) bs (h a)
  Exact-map f h bs a p =
      Exact-eq _ (append-nil bs) (Exact-bind f _ bs [] a (h a) p (Exact-give (h a)))

pub r_u8-Exact : (v : ℕ) → Exact r_u8 (v ∷ []) v
unfolding r_u8
r_u8-Exact v = record {
  at = λ r rest h.
      ground (arith, room (v ∷ []) rest r h, h.next, h.valid, h.going, drop-get_or r.off r.buf 0);
}

pub r_u8-Exact-be : (v : ℕ) → v < 2 ^ 8 → Exact r_u8 (be 1 v) v
r_u8-Exact-be v h = let e : v % 256 ≡ v = omega arith in rw e (r_u8-Exact v)

pub r_u16-Exact : (v : ℕ) → v < 2 ^ 16 → Exact r_u16 (be 2 v) v
unfolding r_u16
r_u16-Exact v h = Exact-bind _ _ _ _ _ _ (r_u8-Exact (v / 2 ^ 8 % 2 ^ 8)) (
    Exact-bind _ _ _ _ _ _ (r_u8-Exact (v % 2 ^ 8))
      (Exact-give_eq _ _ (join_u16 _ _ (omega arith) (omega arith) ∙ omega arith)))

pub r_u32-Exact : (v : ℕ) → v < 2 ^ 32 → Exact r_u32 (be 4 v) v
unfolding r_u32
r_u32-Exact v h =
    Exact-eq r_u32 (ap (λ l. be 2 (v / 2 ^ 16 % 2 ^ 16) ++ l) (append-nil _) ∙ be_four v) (
      Exact-bind _ _ _ _ _ _ (r_u16-Exact (v / 2 ^ 16 % 2 ^ 16) (omega arith)) (
        Exact-bind _ _ _ _ _ _ (r_u16-Exact (v % 2 ^ 16) (omega arith))
          (Exact-give_eq _ _ (join_u32 _ _ (omega arith) (omega arith) ∙ omega arith))))

pub r_u64-Exact : (v : ℕ) → v < 2 ^ 64 → Exact r_u64 (be 8 v) v
unfolding r_u64
r_u64-Exact v h =
    Exact-eq r_u64 (ap (λ l. be 4 (v / 2 ^ 32 % 2 ^ 32) ++ l) (append-nil _) ∙ be_eight v) (
      Exact-bind _ _ _ _ _ _ (r_u32-Exact (v / 2 ^ 32 % 2 ^ 32) (omega arith)) (
        Exact-bind _ _ _ _ _ _ (r_u32-Exact (v % 2 ^ 32) (omega arith))
          (Exact-give_eq _ _ (join_u64 _ _ (omega arith) (omega arith) ∙ omega arith))))

pub r_bytes-Exact : (n : ℕ) (bs : List ℕ) → length bs ≡ n → Exact (r_bytes n) bs (some bs)
unfolding r_bytes
r_bytes-Exact n bs e = record {
  at = λ r rest h.
      let front : take n (drop r.off r.buf) ≡ bs =
        ap (take n) h.next ∙ rw (← e) (take-length_append bs rest) in
      ground (arith, room bs rest r h, front, h.valid, h.going);
}
