-- ===== src/Batch/Prepare.antt =====
-- `_prepare` of engine/scheduler.py: every sequence of a batch gets a slot of its own, or none does.
use nanoserve.Prelude.{
  List, [], ap, arith, count, count-append, if_false, if_true, length, ltb, ltb→lt, lt→ltb, map,
  refl, subst, sym, take, true, ℕ, ◌++◌, ◌+◌, ◌/◌, ◌<◌, ◌∙◌, ◌∷◌, ◌≡◌, ◌≤◌,
}
use nanoserve.Exec.{ok, err, out_of_blocks}
use nanoserve.Allocator.{num_free}
use nanoserve.Allocator.Invariant.{Holds, Holds-same}
use nanoserve.Paged.{Side, Pool, Cache, Paged}
use nanoserve.Paged.Slots.{map_agree, count-slots_of, count-take-le}
use nanoserve.Batch.{
  Batch, total_need, commit_loop, finish_prepare, prepare, index_rows, mask_rows, longest,
}
use nanoserve.Batch.Need.{tables, need_mono}
use nanoserve.Batch.Step.{Fit, Stepped, prepare_one-Stepped}

abbrev pub AllFit : ℕ → List Cache → Type 0
AllFit bs [] = Unit {0}
AllFit bs (c ∷ cs) = Fit bs c × AllFit bs cs

-- Each new slot lies in a block of its sequence's table that nobody else holds.
abbrev pub Apart : ℕ → List ℕ → List Cache → List ℕ → Type 0
Apart bs others [] [] = Unit {0}
Apart bs others (c ∷ cs) (w ∷ ws) =
    (0 < count (w / bs) c.block_table)
    × (count (w / bs) (tables cs ++ others) ≡ 0)
    × Apart bs (c.block_table ++ others) cs ws
Apart bs others _ _ = ⊥

module _ {V : Type 0} where
  -- One token more, in the slot `w`; the tokens before read as before.
  pub record Moved (p q : Pool V) (c d : Cache) (w : ℕ) : Type 0 where
    pub tokens : d.num_tokens ≡ c.num_tokens + 1
    pub slot : take d.num_tokens d.slots ≡ take c.num_tokens d.slots ++ w ∷ []
    pub own :
        (side : Side) (l : ℕ)
        → l < p.num_layers
        → map (q.store side l) (take c.num_tokens d.slots)
          ≡ map (p.store side l) (take c.num_tokens c.slots)

  abbrev pub AllMoved : Pool V → Pool V → List Cache → List Cache → List ℕ → Type 0
  AllMoved p q [] [] [] = Unit {0}
  AllMoved p q (c ∷ cs) (d ∷ ds) (w ∷ ws) = Moved p q c d w × AllMoved p q cs ds ws
  AllMoved p q _ _ _ = ⊥

  pub record Committed (others : List ℕ) (cs : List Cache) (p q : Pool V) (ds : List Cache)
      (ws : List ℕ) : Type 0 where
    pub fit : AllFit p.block_size ds
    pub holds : Holds q.alloc (tables ds ++ others)
    pub moved : AllMoved p q cs ds ws
    pub apart : Apart p.block_size others ds ws
    pub same_size : q.block_size ≡ p.block_size
    pub same_layers : q.num_layers ≡ p.num_layers
    pub no_gain : (b : ℕ) → 0 < count b others → count b (tables ds) ≤ count b (tables cs)
    pub foreign :
        (side : Side) (l x : ℕ)
        → 0 < count (x / p.block_size) others
        → q.store side l x ≡ p.store side l x

  -- What a sequence reads, after the others' steps.
  Moved-trans :
      (p q r : Pool V) (c d : Cache) (w : ℕ)
      → 0 < p.block_size
      → Fit p.block_size d
      → ((side : Side) (l x : ℕ)
          → 0 < count (x / p.block_size) d.block_table
          → r.store side l x ≡ q.store side l x)
      → Moved p q c d w
      → Moved p r c d w
  Moved-trans p q r c d w pos fit same m = record {
    tokens = m.tokens;
    slot = m.slot;
    own = λ side l h.
        map_agree (r.store side l) (q.store side l) (take c.num_tokens d.slots) (λ x k.
          same side l x (
            omega (
              arith,
              count-slots_of p.block_size x d.block_table pos,
              count-take-le x c.num_tokens d.slots,
              ap (count x) fit.linked,
            )))
        ∙ m.own side l h;
  }

  -- What the rest of the batch reads at the start of its steps, after the first one.
  AllMoved-before :
      (p q r : Pool V) (cs ds : List Cache) (ws : List ℕ)
      → 0 < p.block_size
      → AllFit p.block_size cs
      → q.num_layers ≡ p.num_layers
      → ((side : Side) (l x : ℕ)
          → 0 < count (x / p.block_size) (tables cs)
          → q.store side l x ≡ p.store side l x)
      → AllMoved q r cs ds ws
      → AllMoved p r cs ds ws
  AllMoved-before p q r [] [] [] pos f e same m = tt
  AllMoved-before p q r [] [] (w ∷ ws) pos f e same m = elim m [ ]
  AllMoved-before p q r [] (d ∷ ds) ws pos f e same m = elim m [ ]
  AllMoved-before p q r (c ∷ cs) [] ws pos f e same m = elim m [ ]
  AllMoved-before p q r (c ∷ cs) (d ∷ ds) [] pos f e same m = elim m [ ]
  AllMoved-before p q r (c ∷ cs) (d ∷ ds) (w ∷ ws) pos (f, fs) e same (m, ms) = (
    record {
      tokens = m.tokens;
      slot = m.slot;
      own = λ side l h.
          m.own side l (omega (arith, e))
          ∙ map_agree (q.store side l) (p.store side l) (take c.num_tokens c.slots) (λ x k.
            same side l x (
              omega (
                arith,
                count-append (x / p.block_size) c.block_table (tables cs),
                count-slots_of p.block_size x c.block_table pos,
                count-take-le x c.num_tokens c.slots,
                ap (count x) f.linked,
              )));
    },
    AllMoved-before p q r cs ds ws pos fs e
        (λ side l x k.
          same side l x (omega (arith, count-append (x / p.block_size) c.block_table (tables cs))))
        ms,
  )

  Moved-of :
      {others : List ℕ} {p : Pool V} {c : Cache} {t : Paged V} {w : ℕ}
      → Stepped others (record { pool = p; cache = c }) t w
      → Moved p t.pool c t.cache w
  Moved-of st = record { tokens = st.tokens; slot = st.slot; own = st.own }

  Committed-cons :
      (others : List ℕ) (c : Cache) (cs : List Cache) (p : Pool V) (t : Paged V) (w : ℕ)
      (q : Pool V) (ds : List Cache) (ws : List ℕ)
      → 0 < p.block_size
      → AllFit p.block_size cs
      → Stepped (tables cs ++ others) (record { pool = p; cache = c }) t w
      → Committed (t.block_table ++ others) cs t.pool q ds ws
      → Committed others (c ∷ cs) p q (t.cache ∷ ds) (w ∷ ws)
  Committed-cons others c cs p t w q ds ws pos fits st k = record {
    fit = (st.fit, subst (λ n. AllFit n ds) st.same_size k.fit);
    holds =
        Holds-same (tables ds ++ (t.block_table ++ others)) ((t.block_table ++ tables ds) ++ others)
          (λ b. omega (
            arith,
            count-append b (tables ds) (t.block_table ++ others),
            count-append b t.block_table others,
            count-append b (t.block_table ++ tables ds) others,
            count-append b t.block_table (tables ds),
          ))
          k.holds;
    moved = (
      Moved-trans p t.pool q c t.cache w pos st.fit
          (λ side l x h.
            later side l x (omega (arith, count-append (x / p.block_size) t.block_table others, h)))
          (Moved-of st),
      AllMoved-before p t.pool q cs ds ws pos fits st.same_layers
          (λ side l x h.
            st.foreign side l x
              (omega (arith, count-append (x / p.block_size) (tables cs) others, h)))
          k.moved,
    );
    apart = (
      st.mine,
      omega (
        arith,
        st.alone,
        k.no_gain (w / p.block_size),
        st.mine,
        count-append (w / p.block_size) t.block_table others,
        count-append (w / p.block_size) (tables cs) others,
        count-append (w / p.block_size) (tables ds) others,
      ),
      subst (λ n. Apart n (t.block_table ++ others) ds ws) st.same_size k.apart,
    );
    same_size = k.same_size ∙ st.same_size;
    same_layers = k.same_layers ∙ st.same_layers;
    no_gain = λ b h. omega (
      arith,
      st.no_gain b,
      k.no_gain b,
      h,
      count-append b t.block_table others,
      count-append b (tables cs) others,
      count-append b t.block_table (tables ds),
      count-append b c.block_table (tables cs),
    );
    foreign = λ side l x h.
        later side l x (omega (arith, count-append (x / p.block_size) t.block_table others, h))
        ∙ st.foreign side l x
            (omega (arith, count-append (x / p.block_size) (tables cs) others, h));
  }
    where
      later :
          (side : Side) (l x : ℕ)
          → 0 < count (x / p.block_size) (t.block_table ++ others)
          → q.store side l x ≡ t.store side l x
      later side l x h =
          k.foreign side l x
            (subst (λ n. 0 < count (x / n) (t.block_table ++ others)) (sym st.same_size) h)

  commit_loop-Committed :
      (cs : List Cache) (others : List ℕ) (p : Pool V)
      → 0 < p.block_size
      → AllFit p.block_size cs
      → Holds p.alloc (tables cs ++ others)
      → total_need p.block_size p.alloc.refs cs ≤ length p.alloc.free
      → (q : Pool V) × (ds : List Cache) × (ws : List ℕ) × (commit_loop cs p ≡ (ok ws, q, ds))
        × Committed others cs p q ds ws
  unfolding commit_loop total_need
  commit_loop-Committed [] others p pos fit h need = (
    p,
    [],
    [],
    refl,
    record {
      fit = tt;
      holds = h;
      moved = tt;
      apart = tt;
      same_size = refl;
      same_layers = refl;
      no_gain = λ b k. omega arith;
      foreign = λ side l x k. refl;
    },
  )
  commit_loop-Committed (c ∷ cs) others p pos (fit, fits) h need =
      let front = tables cs ++ others in
      let (t, w, run, st) =
        prepare_one-Stepped front p c pos fit
          (Holds-same ((c.block_table ++ tables cs) ++ others) (c.block_table ++ front)
            (λ b. omega (
              arith,
              count-append b (c.block_table ++ tables cs) others,
              count-append b c.block_table (tables cs),
              count-append b c.block_table front,
              count-append b (tables cs) others,
            ))
            h)
          (omega arith) in
      let behind = t.block_table ++ others in
      let held : Holds t.alloc (tables cs ++ behind) =
        Holds-same (t.block_table ++ front) (tables cs ++ behind)
          (λ b. omega (
            arith,
            count-append b t.block_table front,
            count-append b (tables cs) others,
            count-append b (tables cs) behind,
            count-append b t.block_table others,
          ))
          st.holds in
      let fewer : total_need p.block_size t.alloc.refs cs
          ≤ total_need p.block_size p.alloc.refs cs =
        need_mono p.block_size p.alloc.refs t.alloc.refs cs (λ b k. omega (
          arith,
          st.holds.counted b,
          h.counted b,
          st.no_gain b,
          k,
          count-append b (c.block_table ++ tables cs) others,
          count-append b c.block_table (tables cs),
          count-append b t.block_table front,
          count-append b (tables cs) others,
        )) in
      let (q, ds, ws, rest, k) =
        commit_loop-Committed cs behind t.pool (omega (arith, st.same_size))
          (subst (λ n. AllFit n cs) (sym st.same_size) fits) held
          (subst (λ n. total_need n t.alloc.refs cs ≤ length t.alloc.free) (sym st.same_size)
            (omega (arith, fewer, st.used))) in
      (
        q,
        t.cache ∷ ds,
        w ∷ ws,
        rw (run, rest) refl,
        Committed-cons others c cs p t w q ds ws pos fits st k,
      )

  -- What holds of a batch between two passes; `others` lists what everybody else holds.
  pub record Ready (others : List ℕ) (s : Batch V) : Type 0 where
    pub positive : 0 < s.block_size
    pub fit : AllFit s.block_size s.caches
    pub holds : Holds s.alloc (tables s.caches ++ others)

  -- What a `_prepare` that returns leaves.
  pub record Prepared (others : List ℕ) (s t : Batch V) : Type 0 where
    pub committed : Committed others s.caches s.pool t.pool t.caches t.write_slots
    pub ready : Ready others t
    pub done : t.prepared ≡ true
    pub index : t.read_index ≡ index_rows (longest t.caches) t.caches
    pub masked : t.mask ≡ mask_rows (longest t.caches) t.caches

  -- `_prepare` is all or nothing. With fewer free blocks than the batch needs it raises
  -- `OutOfBlocks` and changes nothing; otherwise it does not raise, and every sequence has one token
  -- more, in a slot of a block that is its own, with what it and everybody else reads unchanged.
  pub prepare-Prepared :
      (others : List ℕ) (s : Batch V)
      → Ready others s
      → (length s.alloc.free < total_need s.block_size s.alloc.refs s.caches
          → prepare s ≡ (err out_of_blocks, s))
        × (total_need s.block_size s.alloc.refs s.caches ≤ length s.alloc.free
            → (t : Batch V) × (prepare s ≡ (ok tt, t)) × Prepared others s t)
  unfolding prepare num_free
  prepare-Prepared others s r = (
    λ few. if_true _ _ _ (lt→ltb _ _ few),
    λ enough.
        (let (q, ds, ws, run, k) =
            commit_loop-Committed s.caches others s.pool r.positive r.fit r.holds enough in
          let t : Batch V = (finish_prepare (ok ws, q, ds) s).1 in
          (
            t,
            if_false (ltb (length s.alloc.free) (total_need s.block_size s.alloc.refs s.caches)) _ _
                  (ground (
                    arith,
                    ltb→lt (length s.alloc.free) (total_need s.block_size s.alloc.refs s.caches),
                  ))
                ∙ ap (λ x. finish_prepare x s) run,
            record {
              committed = k;
              ready = record {
                positive = omega (arith, k.same_size, r.positive);
                fit = subst (λ n. AllFit n ds) (sym k.same_size) k.fit;
                holds = k.holds;
              };
              done = refl;
              index = refl;
              masked = refl;
            },
          )),
  )
