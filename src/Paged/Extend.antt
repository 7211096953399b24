-- ===== src/Paged/Extend.antt =====
-- The first steps of a forward pass (engine/block_manager.py): copy-on-write of a partial block,
-- growth of the table, and the new number of tokens.
use nanoserve.Prelude.{
  Bool-cases, List, ap, ap₂, arith, count, inl, inr, leb, leb→gt, leb→le, length, map, refl, subst,
  sym, take, ℕ, ◌%◌, ◌*◌, ◌+◌, ◌-◌, ◌/◌, ◌<◌, ◌∙◌, ◌≡◌, ◌≤◌,
}
use native.Mathlib.Nat.{div-add-mod, mod-lt}
use nanoserve.Exec.{Exec, ◌>>◌, ok, err, out_of_blocks, bind_ok, bind_err}
use nanoserve.Paged.{Side, Paged, ceil_div, ensure_capacity, unshare_partial, grow, advance}
use nanoserve.Paged.Slots.{mul_mono}
use nanoserve.Paged.Invariant.{Owned, Tight, Private, Preserves, Preserves-trans}
use nanoserve.Paged.Grow.{Grown, grow-Grown}
use nanoserve.Paged.Unshare.{Unshared, copies_needed, unshare_partial-Unshared}

ceil_exact : (x b q r : ℕ) → 0 < b → b * q + r ≡ x + b - 1 → r < b → (x ≤ q * b) × (q * b < x + b)
ceil_exact x b q r h e k = (grind arith, grind arith)

-- Rounding up: the least multiple of the block size that is no smaller.
pub ceil_div_bounds : (x b : ℕ) → 0 < b → (x ≤ ceil_div x b * b) × (ceil_div x b * b < x + b)
unfolding ceil_div
ceil_div_bounds x b h =
    ceil_exact x b ((x + b - 1) / b) ((x + b - 1) % b) h (div-add-mod (x + b - 1) b)
      (mod-lt (x + b - 1) h)

pub le_of_mul : (n c b x : ℕ) → n * b < x + b → x ≤ c * b → n ≤ c
le_of_mul n c b x h k = elim (Bool-cases (leb n c)) [
  | inl t ↦ leb→le _ _ t
  | inr f ↦ absurd (omega (arith, mul_mono (c + 1) n b (omega (arith, leb→gt _ _ f))))
]

room : (m b b' l l' : ℕ) → b ≡ b' → l ≡ l' → m ≤ l' * b' → m ≤ l * b
room m b b' l l' e f h = rw (e, f) h

module _ {V : Type 0} where
  -- The blocks that a pass over `n` new tokens takes from the pool.
  unfoldable pub blocks_needed : ℕ → Paged V → ℕ
  unfolding copies_needed ceil_div
  blocks_needed n s =
      copies_needed s + (ceil_div (s.num_tokens + n) s.block_size - length s.block_table)

  -- What `update` at layer 0 and `_prepare` of engine/scheduler.py both do.
  abbrev pub extend : ℕ → Exec (Paged V) (Unit {0})
  extend n s = (unshare_partial >> (ensure_capacity n >> advance n)) s

  pub record Extended (others : List ℕ) (n : ℕ) (s t : Paged V) : Type 0 where
    pub owned : Owned others t
    pub tight : Tight t
    pub private : Private others s.num_tokens t
    pub tokens : t.num_tokens ≡ s.num_tokens + n
    pub start : t.start ≡ s.start
    pub same_size : t.block_size ≡ s.block_size
    pub same_layers : t.num_layers ≡ s.num_layers
    pub no_gain : (b : ℕ) → 0 < count b others → count b t.block_table ≤ count b s.block_table
    pub foreign :
        (side : Side) (l x : ℕ)
        → 0 < count (x / s.block_size) others
        → t.store side l x ≡ s.store side l x
    pub own :
        (side : Side) (l : ℕ)
        → l < s.num_layers
        → map (t.store side l) (take s.num_tokens t.slots)
          ≡ map (s.store side l) (take s.num_tokens s.slots)
    pub used : length s.alloc.free ≡ length t.alloc.free + blocks_needed n s

  Tight-grown :
      (s t u : Paged V) (n : ℕ)
      → Tight s
      → 0 < s.block_size
      → u.block_size ≡ s.block_size
      → u.num_tokens ≡ s.num_tokens + n
      → t.block_table ≡ u.block_table
      → length t.block_table
        ≡ length s.block_table + (ceil_div (s.num_tokens + n) s.block_size - length s.block_table)
      → Tight u
  Tight-grown s t u n tight pos size tokens table len =
      let c = ceil_div (s.num_tokens + n) s.block_size in
      let bounds = ceil_div_bounds (s.num_tokens + n) s.block_size pos in
      let le : length s.block_table ≤ c =
        le_of_mul (length s.block_table) c s.block_size (s.num_tokens + n)
          (omega (arith, tight.snug)) bounds.0 in
      let e : length u.block_table ≡ c = omega (arith, ap length table) in
      record { enough = rw (e, size, tokens) bounds.0; snug = rw (e, size, tokens) bounds.1 }

  -- The growth of a pass, after the copy-on-write step `u`.
  Grown-of :
      {others : List ℕ} {s : Paged V} (n : ℕ) (u : Paged V)
      → Tight s
      → Owned others u
      → Preserves others s.num_tokens s u
      → length u.block_table ≡ length s.block_table
      → Private others s.num_tokens u
      → Grown others s.num_tokens
          (ceil_div (s.num_tokens + n) s.block_size - length s.block_table)
          u
          (ensure_capacity n u)
  unfolding ensure_capacity
  Grown-of {others} {s} n u t o k len p =
      let rounds = ceil_div (s.num_tokens + n) s.block_size - length s.block_table in
      let same : ceil_div (u.num_tokens + n) u.block_size - length u.block_table ≡ rounds =
        ap₂ (λ (c l : ℕ). c - l) (ap₂ (λ (m b : ℕ). ceil_div (m + n) b) k.same_tokens k.same_size)
          len in
      subst (λ c. Grown others s.num_tokens rounds u (grow c u)) (sym same)
        (grow-Grown others s.num_tokens rounds u o p (
          room s.num_tokens u.block_size s.block_size (length u.block_table) (length s.block_table)
            k.same_size len t.enough))

  Extended-of :
      {others : List ℕ} {s : Paged V} (n : ℕ) (u w : Paged V)
      → Owned others s
      → Tight s
      → Preserves others s.num_tokens s u
      → length u.block_table ≡ length s.block_table
      → length s.alloc.free ≡ length u.alloc.free + copies_needed s
      → Grown others s.num_tokens
          (ceil_div (s.num_tokens + n) s.block_size - length s.block_table)
          u
          (ok tt, w)
      → length w.block_table
        ≡ length u.block_table + (ceil_div (s.num_tokens + n) s.block_size - length s.block_table)
      → length u.alloc.free
        ≡ length w.alloc.free + (ceil_div (s.num_tokens + n) s.block_size - length s.block_table)
      → Extended others n s (record w { cache = record w.cache { num_tokens = w.num_tokens + n } })
  unfolding blocks_needed
  Extended-of {others} {s} n u w o t k len used g more less =
      let all : Preserves others s.num_tokens s w = Preserves-trans k g.keeps in
      record {
        owned = record {
          positive = g.owned.positive;
          linked = g.owned.linked;
          distinct = g.owned.distinct;
          holds = g.owned.holds;
        };
        tight =
            Tight-grown s w _ n t o.positive all.same_size (ap (λ m. m + n) all.same_tokens) refl
              (more ∙ omega (arith, len));
        private = record {
          full = g.private.full;
          rest = g.private.rest;
          split = g.private.split;
          before = g.private.before;
          unshared = g.private.unshared;
        };
        tokens = ap (λ m. m + n) all.same_tokens;
        start = all.same_start;
        same_size = all.same_size;
        same_layers = all.same_layers;
        no_gain = all.no_gain;
        foreign = all.foreign;
        own = all.own;
        used = omega (arith, used, less);
      }

  pub extend-Extended :
      (others : List ℕ) (n : ℕ) (s : Paged V)
      → Owned others s
      → Tight s
      → blocks_needed n s ≤ length s.alloc.free
      → (t : Paged V) × (extend n s ≡ (ok tt, t)) × Extended others n s t
  unfolding blocks_needed copies_needed
  extend-Extended others n s o t h =
      let un = unshare_partial-Unshared others s o t in
      let (done, private, used) = un.done (omega arith) in
      let u = (unshare_partial s).1 in
      let g = Grown-of n u t un.owned un.keeps un.same_length private in
      let (grown, more, less) = g.all (omega (arith, used)) in
      let w = (ensure_capacity n u).1 in
      (
        record w { cache = record w.cache { num_tokens = w.num_tokens + n } },
        bind_ok unshare_partial _ s tt done
            ∙ bind_ok (ensure_capacity n) (λ _. advance n) u tt grown,
        Extended-of n u w o t un.keeps un.same_length used
            (record {
              owned = g.owned;
              private = g.private;
              keeps = g.keeps;
              all = λ k. (refl, more, less);
              short = λ k. absurd (omega arith);
            })
            more less,
      )

  pub extend_short :
      (others : List ℕ) (n : ℕ) (s : Paged V)
      → Owned others s
      → Tight s
      → length s.alloc.free < blocks_needed n s
      → (t : Paged V) × (extend n s ≡ (err out_of_blocks, t))
        × Owned others t
        × Preserves others s.num_tokens s t
        × (length t.alloc.free ≡ 0)
  unfolding blocks_needed copies_needed
  extend_short others n s o t h = elim (Bool-cases (leb (copies_needed s) (length s.alloc.free))) [
    | inl enough ↦
        let (done, private, used) = un.done (leb→le _ _ enough) in
        let g = Grown-of n u t un.owned un.keeps un.same_length private in
        let (raised, none_left) = g.short (omega (arith, used)) in
        (
          (ensure_capacity n u).1,
          bind_ok unshare_partial _ s tt done
              ∙ bind_err (ensure_capacity n) (λ _. advance n) u out_of_blocks raised,
          g.owned,
          Preserves-trans un.keeps g.keeps,
          none_left,
        )
    | inr few ↦
        let (raised, none_left) = un.short (leb→gt _ _ few) in
        (u, bind_err unshare_partial _ s out_of_blocks raised, un.owned, un.keeps, none_left)
  ]
    where
      u : Paged V
      u = (unshare_partial s).1

      un : Unshared others (copies_needed s) s (unshare_partial s)
      un = unshare_partial-Unshared others s o t
