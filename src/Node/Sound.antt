-- ===== src/Node/Sound.antt =====
-- Tasks that run together, and the operations of the abstract queue, which keep it sound.
use rg.Prelude.{◌≡◌, ◌≢◌, true, ◌&&◌, List, [], ◌∷◌, ◌++◌, arith, refl, Bool-cases, inl, inr}
use rg.Access.{is_serial_access}
use rg.Node.{TaskAccess}
use rg.Node.Queue.{
  Queue, parallel, admits, parallel_prefix, parallel_rest, enqueue, promote, Together, Blocked,
  Counted, IsSound,
}

pub parallel_sym : (t u : TaskAccess) → parallel t u ≡ parallel u t
unfolding is_serial_access
parallel_sym t u = ground arith

-- Tasks that may run beside each other have the same rivals.
parallel_via : (t u x : TaskAccess) → parallel t u ≡ true → parallel x t ≡ parallel x u
unfolding is_serial_access
parallel_via t u x h = ground arith

pub admits_via :
    (us : List TaskAccess) (t u : TaskAccess) → parallel t u ≡ true → admits us t ≡ admits us u
admits_via [] t u h = refl
admits_via (x ∷ us) t u h =
    ground (arith, parallel_via t u x, parallel_sym x t, parallel_sym x u, admits_via us t u h)

admits-snoc :
    (rs : List TaskAccess) (r t : TaskAccess)
    → admits (rs ++ (r ∷ [])) t ≡ (admits rs t && parallel t r)
admits-snoc [] r t = ground arith
admits-snoc (x ∷ rs) r t = ground (arith, admits-snoc rs r t)

-- Beside tasks that run together, looking at the last one is enough.
pub admits-eq-parallel :
    (rs : List TaskAccess) (r t : TaskAccess)
    → Together (rs ++ (r ∷ []))
    → admits (rs ++ (r ∷ [])) t ≡ parallel t r
admits-eq-parallel [] r t h = ground arith
admits-eq-parallel (x ∷ rs) r t h =
    ground (arith, admits-eq-parallel rs r t h.1, admits-snoc rs r x, parallel_via x r t, h.0)

Together-snoc :
    (rs : List TaskAccess) (t : TaskAccess)
    → Together rs
    → admits rs t ≡ true
    → Together (rs ++ (t ∷ []))
Together-snoc [] t h e = (refl, tt)
Together-snoc (r ∷ rs) t h e = (
  ground (arith, admits-snoc rs t r, parallel_sym r t, h.0),
  Together-snoc rs t h.1 (ground arith),
)

Counted-snoc :
    (ws : List TaskAccess) (t : TaskAccess)
    → Counted ws
    → t.wait_counter_p ≢ 0
    → Counted (ws ++ (t ∷ []))
Counted-snoc [] t c h = (h, tt)
Counted-snoc (w ∷ ws) t c h = (c.0, Counted-snoc ws t c.1 h)

module _ (w : TaskAccess) where
  admits-parallel_prefix : (ws : List TaskAccess) → admits (parallel_prefix w ws) w ≡ true
  admits-parallel_prefix [] = refl
  admits-parallel_prefix (u ∷ us) = ground (arith, admits-parallel_prefix us)

  Together-parallel_prefix : (ws : List TaskAccess) → Together (parallel_prefix w ws)
  Together-parallel_prefix [] = tt
  Together-parallel_prefix (u ∷ us) = elim (Bool-cases (parallel w u)) [
    | inl e ↦ rw e (
      ground (arith, admits-parallel_prefix us, admits_via (parallel_prefix w us) w u),
      Together-parallel_prefix us,
    )
    | inr e ↦ rw e tt
  ]

  Blocked-parallel_rest : (rs ws : List TaskAccess) → Blocked (w ∷ rs) (parallel_rest w ws)
  Blocked-parallel_rest rs [] = tt
  Blocked-parallel_rest rs (u ∷ us) = elim (Bool-cases (parallel w u)) [
    | inl e ↦ rw e (Blocked-parallel_rest rs us)
    | inr e ↦ rw e (ground (arith, parallel_sym u w))
  ]

  Counted-parallel_rest : (ws : List TaskAccess) → Counted ws → Counted (parallel_rest w ws)
  Counted-parallel_rest [] c = tt
  Counted-parallel_rest (u ∷ us) c = elim (Bool-cases (parallel w u)) [
    | inl e ↦ rw e (Counted-parallel_rest us c.1)
    | inr e ↦ rw e c
  ]

enqueue_parts-IsSound :
    (rs ws : List TaskAccess) (t : TaskAccess)
    → IsSound (record { running = rs; waiting = ws })
    → t.wait_counter_p ≢ 0
    → IsSound (enqueue (record { running = rs; waiting = ws }) t)
unfolding enqueue
enqueue_parts-IsSound rs [] t s h = elim (Bool-cases (admits rs t)) [
  | inl e ↦ rw e (record { together = Together-snoc rs t s.together e; blocked = tt; counted = tt })
  | inr e ↦ rw e (record { together = s.together; blocked = e; counted = (h, tt) })
]
enqueue_parts-IsSound rs (w ∷ ws) t s h = record {
  together = s.together;
  blocked = s.blocked;
  counted = (s.counted.0, Counted-snoc ws t s.counted.1 h);
}

pub enqueue-IsSound :
    (q : Queue) (t : TaskAccess) → IsSound q → t.wait_counter_p ≢ 0 → IsSound (enqueue q t)
enqueue-IsSound q t s h = enqueue_parts-IsSound q.running q.waiting t s h

pub promote-IsSound : (ws : List TaskAccess) → Counted ws → IsSound (promote ws)
unfolding promote
promote-IsSound [] c = record { together = tt; blocked = tt; counted = tt }
promote-IsSound (w ∷ ws) c = record {
  together = (admits-parallel_prefix w ws, Together-parallel_prefix w ws);
  blocked = Blocked-parallel_rest w (parallel_prefix w ws) ws;
  counted = Counted-parallel_rest w ws c.1;
}

-- While another task runs, the end of the first one lets nothing start.
pub Blocked-tail :
    (r s : TaskAccess) (rs ws : List TaskAccess)
    → Together (r ∷ s ∷ rs)
    → Blocked (r ∷ s ∷ rs) ws
    → Blocked (s ∷ rs) ws
Blocked-tail r s rs [] h b = tt
Blocked-tail r s rs (w ∷ ws) h b =
    ground (arith, parallel_via r s w, admits_via rs s w, parallel_sym s w, h)
