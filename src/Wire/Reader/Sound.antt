-- ===== src/Wire/Reader/Sound.antt =====
-- What a successful read says about the input: the octets that were consumed, and how they relate
-- to the value.
use ion_dtn_contrib.Prelude.{
  ℕ, ◌+◌, ◌*◌, ◌^◌, ◌<◌, ◌≡◌, refl, ap, sym, ◌∙◌, true, List, [], ◌∷◌, ◌++◌, append_assoc,
  append-nil, append-nil, Option, some, All, All-get_or, All-take, All-drop, length, length-append,
  length-drop, length-take, take, drop, drop-drop, drop-get_or, take-append-drop, get_or, arith,
}
use ion_dtn_contrib.Wire.Octets.{be_pair_u16, be_pair_u32, be_pair_u64}
use ion_dtn_contrib.Wire.Pointer.{octets, Points}
use ion_dtn_contrib.Wire.Size.{be, IsByte}
use ion_dtn_contrib.Wire.Reader.{Reader, Read, ◌>>=◌, give, r_u8, r_u16, r_u32, r_u64, r_bytes}
use ion_dtn_contrib.Wire.Reader.Laws.{IsValid, Safe, Safe-bind, safe_rules}

-- The octets between two positions of a reader, which meet `Q` with the value `a`.
pub record Consumed {A : Type 0} (Q : A → List ℕ → Type 0) (a : A) (r r' : Reader) : Type 0 where
  pub used : List ℕ
  pub meets : Q a used
  pub split : drop r.off r.buf ≡ used ++ drop r'.off r'.buf
  pub moved : r'.off ≡ r.off + length used

pub record Sound {A : Type 0} (f : Read A) (Q : A → List ℕ → Type 0) : Type 0 where
  pub safe : Safe f
  pub at : (r : Reader) → IsValid r → (f r).1.ok ≡ true → Consumed Q (f r).0 r (f r).1

module _ {A B : Type 0} where
  pub Sound-bind :
      (f : Read A) (g : A → Read B) (P : A → List ℕ → Type 0) (Q : B → List ℕ → Type 0)
      → Sound f P
      → ((a : A) → Safe (g a))
      → ((a : A) (xs : List ℕ) → P a xs → Sound (g a) (λ b ys. Q b (xs ++ ys)))
      → Sound (f >>= g) Q
  unfolding ◌>>=◌
  Sound-bind f g P Q p s q = record {
    safe = Safe-bind f g p.safe s;
    at = λ r v e.
        let k = p.safe.at r v in
        let good = ((s (f r).0).at (f r).1 k.valid).sticky e in
        let c = p.at r v good in
        let d = (q (f r).0 c.used c.meets).at (f r).1 k.valid e in
        record {
          used = c.used ++ d.used;
          meets = d.meets;
          split = c.split ∙ ap (λ l. c.used ++ l) d.split ∙ sym (append_assoc c.used d.used _);
          moved = omega (arith, c.moved, d.moved, length-append c.used d.used);
        };
  }

module _ {A : Type 0} (Q : A → List ℕ → Type 0) where
  pub Sound-give : (a : A) → Q a [] → Sound (give a) Q
  unfolding give
  Sound-give a h = record {
    safe = search safe_rules;
    at = λ r v e. record { used = []; meets = h; split = refl; moved = omega arith };
  }

module _ {A B : Type 0} where
  -- The last read of a block, whose value is wrapped up.
  pub Sound-map :
      (f : Read A) (h : A → B) (P : A → List ℕ → Type 0) (Q : B → List ℕ → Type 0)
      → Sound f P
      → ((a : A) (xs : List ℕ) → P a xs → Q (h a) xs)
      → Sound (f >>= λ a. give (h a)) Q
  Sound-map f h P Q p q =
      Sound-bind f (λ a. give (h a)) P Q p (λ a. search safe_rules)
        λ a xs c. Sound-give (λ b ys. Q b (xs ++ ys)) (h a) (rw append-nil (q a xs c))

module _ {A : Type 0} where
  pub Sound-weaken :
      (f : Read A) (P Q : A → List ℕ → Type 0)
      → Sound f P
      → ((a : A) (bs : List ℕ) → P a bs → Q a bs)
      → Sound f Q
  Sound-weaken f P Q p h = record {
    safe = p.safe;
    at = λ r v e.
        let c = p.at r v e in
        record { used = c.used; meets = h _ c.used c.meets; split = c.split; moved = c.moved };
  }

-- The value's octets in network order.
abbrev pub IsBe : ℕ → ℕ → List ℕ → Type 0
IsBe k v bs = (bs ≡ be k v) × (v < 2 ^ (8 * k))

pub r_u8-Sound : Sound r_u8 (IsBe 1)
unfolding r_u8
r_u8-Sound = record {
  safe = search safe_rules;
  at = λ r v e.
      let inside : r.off < length r.buf = ground arith in
      let octet = All-get_or IsByte r.off r.buf 0 inside v.octets in
      record {
        used = get_or r.buf r.off 0 ∷ [];
        meets = ground (arith, inside, octet, v);
        split = ground (arith, v, drop-get_or r.off r.buf 0);
        moved = ground (arith, v);
      };
}

-- The `n` octets that a pointer refers to.
abbrev pub IsRun : ℕ → Option (List ℕ) → List ℕ → Type 0
IsRun n p bs = (p ≡ some bs) × (length bs ≡ n) × All IsByte bs

r_bytes_step :
    (n : ℕ) (r : Reader)
    → IsValid r
    → (r_bytes n r).1.ok ≡ true
    → (r_bytes n r ≡ (some (take n (drop r.off r.buf)), record r { off = r.off + n }))
      × (length (take n (drop r.off r.buf)) ≡ n)
unfolding r_bytes
r_bytes_step n r v e = (
  ground (arith, v),
  ground (arith, v, length-take n (drop r.off r.buf), length-drop r.off r.buf),
)

pub r_bytes-Sound : (n : ℕ) → Sound (r_bytes n) (IsRun n)
r_bytes-Sound n = record {
  safe = search safe_rules;
  at = λ r v e.
      let (step, len) = r_bytes_step n r v e in
      let front : List ℕ = take n (drop r.off r.buf) in
      rw step (record {
        used = front;
        meets = (refl, len, All-take IsByte n _ (All-drop IsByte r.off r.buf v.octets));
        split =
            sym (take-append-drop n (drop r.off r.buf))
            ∙ ap (λ l. front ++ l) (sym (drop-drop r.off n (r.off + n) r.buf refl));
        moved = omega (arith, len);
      });
}

module _ (k : ℕ) (f : Read ℕ) (join : ℕ → ℕ → ℕ) (s : Sound f (IsBe k)) where
  -- Reading twice and joining the halves.
  Sound-pair :
      ((hi lo : ℕ)
        → hi < 2 ^ (8 * k)
        → lo < 2 ^ (8 * k)
        → IsBe (2 * k) (join hi lo) (be k hi ++ (be k lo ++ [])))
      → Sound (f >>= λ hi. f >>= λ lo. give (join hi lo)) (IsBe (2 * k))
  Sound-pair j =
      Sound-bind _ _ _ _ s (λ hi. search (safe_rules, s.safe))
        λ hi xs p.
          Sound-bind _ _ _ _ s (λ lo. search safe_rules)
            λ lo ys q. Sound-give _ _ (rw (p.0, q.0) (j hi lo p.1 q.1))

pub r_u16-Sound : Sound r_u16 (IsBe 2)
unfolding r_u16
r_u16-Sound = Sound-pair 1 r_u8 _ r_u8-Sound be_pair_u16

pub r_u32-Sound : Sound r_u32 (IsBe 4)
unfolding r_u32
r_u32-Sound = Sound-pair 2 r_u16 _ r_u16-Sound be_pair_u32

pub r_u64-Sound : Sound r_u64 (IsBe 8)
unfolding r_u64
r_u64-Sound = Sound-pair 4 r_u32 _ r_u32-Sound be_pair_u64

pub IsRun-Points : (n : ℕ) (p : Option (List ℕ)) (bs : List ℕ) → IsRun n p bs → Points p n
IsRun-Points n p bs (e, len, bytes) = rw e (record { set = refl; size = len; bytes = bytes })

-- The octets that a run refers to are those that were consumed.
pub IsRun-octets : (n : ℕ) (p : Option (List ℕ)) (bs : List ℕ) → IsRun n p bs → bs ≡ octets p
IsRun-octets n p bs (e, len, bytes) = rw e
