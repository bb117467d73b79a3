-- ===== src/Wire/Reader/Stable.antt =====
-- More input does not change what was read: a call that succeeds on a buffer succeeds with the
-- same value on every extension of it.
use ion_dtn_contrib.Prelude.{
  ℕ, ◌+◌, ◌^◌, ◌<◌, ◌≡◌, refl, ap, Bool, true, false, if◌then◌else◌, List, ◌++◌, length,
  length-append, length-drop, drop, drop-append, take-append, get_or-append, arith,
}
use ion_dtn_contrib.Wire.Reader.{Reader, Read, ◌>>=◌, give, r_u8, r_u16, r_u32, r_u64, r_bytes}
use ion_dtn_contrib.Wire.Reader.Laws.{IsValid, Safe, Safe-bind, safe_rules}

abbrev pub extend : List ℕ → Reader → Reader
extend more r = record r { buf = r.buf ++ more }

-- The longer buffer, too, is shorter than the largest int.
pub record Stable {A : Type 0} (f : Read A) : Type 0 where
  pub safe : Safe f
  pub at :
      (more : List ℕ) (r : Reader)
      → IsValid r
      → length r.buf + length more < 2 ^ 31
      → (f r).1.ok ≡ true
      → f (extend more r) ≡ ((f r).0, extend more (f r).1)

module _ {A B : Type 0} where
  pub Stable-bind :
      (f : Read A) (g : A → Read B) → Stable f → ((a : A) → Stable (g a)) → Stable (f >>= g)
  unfolding ◌>>=◌
  Stable-bind f g p q = record {
    safe = Safe-bind f g p.safe (λ a. (q a).safe);
    at = λ more r v h e.
        let k = p.safe.at r v in
        let gk = (q (f r).0).safe.at (f r).1 k.valid in
        rw (p.at more r v h (gk.sticky e))
          ((q (f r).0).at more (f r).1 k.valid (omega (arith, h, ap length k.same_buf)) e);
  }

module _ {A : Type 0} where
  pub Stable-give : (a : A) → Stable (give a)
  unfolding give
  Stable-give a = record { safe = search safe_rules; at = λ more r v h e. refl }

  pub Stable-if :
      (b : Bool) (f g : Read A)
      → (b ≡ true → Stable f)
      → (b ≡ false → Stable g)
      → Stable (if b then f else g)
  Stable-if true f g p q = p refl
  Stable-if false f g p q = q refl

pub r_u8-Stable : Stable r_u8
unfolding r_u8
r_u8-Stable = record {
  safe = search safe_rules;
  at =
      λ more r v h e. ground (arith, v, length-append r.buf more, get_or-append r.off r.buf more 0);
}

pub r_bytes-Stable : (n : ℕ) → Stable (r_bytes n)
unfolding r_bytes
r_bytes-Stable n = record {
  safe = search safe_rules;
  at = λ more r v h e. ground (
    arith,
    v,
    length-append r.buf more,
    length-drop r.off r.buf,
    drop-append r.off r.buf more,
    take-append n (drop r.off r.buf) more,
  );
}

ruleset monad_rules = (Stable-bind, Stable-give, Stable-if, r_u8-Stable)

pub r_u16-Stable : Stable r_u16
unfolding r_u16
r_u16-Stable = search monad_rules

pub r_u32-Stable : Stable r_u32
unfolding r_u32
r_u32-Stable = search (monad_rules, r_u16-Stable)

pub r_u64-Stable : Stable r_u64
unfolding r_u64
r_u64-Stable = search (monad_rules, r_u32-Stable)

pub ruleset stable_rules = (
  Stable-bind, Stable-give, Stable-if, r_u8-Stable, r_u16-Stable, r_u32-Stable, r_u64-Stable,
  r_bytes-Stable,
)
