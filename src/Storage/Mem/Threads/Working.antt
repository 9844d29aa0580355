-- ===== src/Storage/Mem/Threads/Working.antt =====
-- The accesses of the maps, and the invariant.
use go_advanced.Base.{
  ◌≡◌, refl, sym, ap, ◌∙◌, ◌⊎◌, inl, inr, true, Bool-cases, List, ◌∷◌, ◌++◌, arith, All,
}
use go_advanced.Base.Counts.{count-middle, All-replace}
use go_advanced.Storage.Spec.{Tables}
use go_advanced.Storage.Mem.Threads.{
  Request, Answer, Body, Progress, going, finished, advance, reads, Thread, holding, unlocking,
  Threads,
}
use go_advanced.Storage.Mem.Threads.Bodies.{
  rest, finish-advance, serve, advance-going, advance-same,
}
use go_advanced.Storage.Mem.Threads.Locked.{
  not-true, r_holds, w_holds, At, IsLocked, split, counts, writes_alone, reads_still, others,
}

-- what a step under the lock leaves for the rest: a reader has not touched the maps, and beside a
-- writer nobody looks at them
under_lock :
    {past : Tables} {s : Threads} (l r : List Thread) (req : Request) (b : Body) (t past' : Tables)
    → IsLocked past s
    → s.threads ≡ l ++ holding req b ∷ r
    → (advance b s.tables).0 ≡ t
    → (past' ≡ past) ⊎ (past' ≡ t)
    → ((All (At past' t) l)
        × (All (At past' t) r)
        × ((s.writer ≡ true) ⊎ ((t ≡ past) × (t ≡ past'))))
under_lock {past} {s} l r req b t past' h at e new = elim (Bool-cases (reads req)) [
  | inl reading ↦
      let (x, (y, y'), z) = split l r _ h at in
      let (free, same) = reads_still l r _ h at reading in
      let t_same : t ≡ s.tables = sym e ∙ advance-same b s.tables (y' ∙ reading) in
      let t_past : t ≡ past = t_same ∙ same in
      let past_same : past' ≡ past = elim new [ inl p ↦ p | inr p ↦ p ∙ t_past ] in
      (rw (past_same, t_same) x, rw (past_same, t_same) z, inr (t_past, t_past ∙ sym past_same))
  | inr writing ↦
      let (x, z) = others l r _ h at past' t (not-true writing) writing in
      (x, z, inl (writes_alone l r _ h at (not-true writing) writing).0)
]

pub works-IsLocked :
    {past : Tables} (s : Threads) (l r : List Thread) (req : Request) (b b' : Body) (t : Tables)
    → s.threads ≡ l ++ holding req b ∷ r
    → advance b s.tables ≡ (t, going b')
    → IsLocked past s
    → IsLocked past (record s { tables = t; threads = l ++ holding req b' ∷ r })
works-IsLocked {past} s l r req b b' t at e h =
    let (a, (b_, c), d) = split l r _ h at in
    let (x, z, mode) =
      under_lock l r req b t past h at (ap (λ (p : Tables × Progress). p.0) e) (inl refl) in
    record {
      at = All-replace (At past t) l r _ (
        x,
        (sym (finish-advance b s.tables ∙ ap rest e) ∙ b_, advance-going b b' s.tables t e ∙ c),
        z,
      );
      counted =
          ground (
            arith,
            h.counted,
            counts l r _ h at r_holds,
            count-middle r_holds l r (holding req b'),
          );
      owned =
          ground
            (arith, h.owned, counts l r _ h at w_holds, count-middle w_holds l r (holding req b'));
      alone = h.alone;
      still = elim mode [ inl w ↦ inl w | inr (p, q) ↦ inr p ];
    }

pub finishes-IsLocked :
    {past : Tables} (s : Threads) (l r : List Thread) (req : Request) (b : Body) (t : Tables)
    (a : Answer)
    → s.threads ≡ l ++ holding req b ∷ r
    → advance b s.tables ≡ (t, finished a)
    → IsLocked past s
    → IsLocked t
        (record s { tables = t; threads = l ++ unlocking req a ∷ r; log = (req, a) ∷ s.log })
finishes-IsLocked {past} s l r req b t a at e h =
    let (x, z, mode) =
      under_lock l r req b t t h at (ap (λ (p : Tables × Progress). p.0) e) (inr refl) in
    record {
      at = All-replace (At t t) l r _ (x, refl, z);
      counted =
          ground (
            arith,
            h.counted,
            counts l r _ h at r_holds,
            count-middle r_holds l r (unlocking req a),
          );
      owned =
          ground
            (arith, h.owned, counts l r _ h at w_holds, count-middle w_holds l r (unlocking req a));
      alone = h.alone;
      still = inr refl;
    }

pub served :
    {past : Tables} {s : Threads} (l r : List Thread) (req : Request) (b : Body) (t : Tables)
    (a : Answer)
    → s.threads ≡ l ++ holding req b ∷ r
    → advance b s.tables ≡ (t, finished a)
    → IsLocked past s
    → serve req past ≡ (t, a)
served {past} {s} l r req b t a at e h =
    let (x, (y, y'), z) = split l r _ h at in sym y ∙ finish-advance b s.tables ∙ ap rest e
