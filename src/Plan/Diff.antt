-- ===== src/Plan/Diff.antt =====
-- src/ops/analyze/plan.rs: the layout of a difference of stored bitmaps, whose walk asks the
-- subtrahends only until one has the key.
use frostbit.Base.{
  ℕ, ◌+◌, ◌%◌, ◌^◌, ◌≤◌, ◌<◌, ◌≡◌, refl, sym, ap, ap₂, ◌∙◌, Bool, true, false, ◌||◌, List, [], ◌∷◌,
  map, ltb, ◌==◌, if◌then◌else◌, arith, inl, inr, Bool-cases,
}
use frostbit.Base.Exec.{Exec, ok, ◌>>=◌}
use frostbit.Cursor.{
  ContainerRef, Cursor, stored_bytes, new, advance_to, drop_below, skip_dead, rests_on,
}
use frostbit.Cursor.Masked.{KeysFrom, KeysFrom-weaken}
use frostbit.Decide.{diff_cap}
use frostbit.Plan.{Op, SlotPlan, Plan, scratch_bytes, wants_partner_major}
use frostbit.Plan.Observed.{AreStored}

-- `rhs.iter_mut().any(|c| c.advance_to(key))`: the cursors behind a hit stay where they are.
unfoldable pub any_hit : ℕ → List Cursor → List Cursor × Bool
any_hit key [] = ([], false)
any_hit key (c ∷ cs) =
    let moved = advance_to key c in
    let rest = any_hit key cs in
    if moved.1 then (moved.0 ∷ cs, true) else (moved.0 ∷ rest.0, rest.1)

unfoldable pub diff_slots : List ContainerRef → List Cursor → Exec (List SlotPlan)
unfolding any_hit
diff_slots [] rhs = ok []
diff_slots (c ∷ cs) rhs =
    let met = any_hit c.key rhs in
    stored_bytes c >>= λ stored. diff_slots cs met.0 >>= λ slots.
    ok (record { key = c.key; capacity = diff_cap c.card (stored % 2 ^ 32) met.1 } ∷ slots)

abbrev diff_plan : Bool → List SlotPlan → Plan
diff_plan double slots = record {
  op = Op.diff;
  slots = slots;
  scratch_bytes = scratch_bytes;
  double = double;
  leaf_agg = [];
}

-- The inputs are the containers that their cursors yield.
unfoldable pub plan_diff : List (List ContainerRef) → Exec Plan
unfolding diff_slots
plan_diff [] = ok (diff_plan false [])
plan_diff (a ∷ rest) = diff_slots a (map new rest) >>= λ slots.
    ok (diff_plan (wants_partner_major Op.diff slots) slots)

abbrev pub has_container : List ContainerRef → ℕ → Bool
has_container [] k = false
has_container (c ∷ cs) k = c.key == k || has_container cs k

abbrev pub any_container : List (List ContainerRef) → ℕ → Bool
any_container [] k = false
any_container (cs ∷ css) k = has_container cs k || any_container css k

abbrev pub AllKeysFrom : ℕ → List (List ContainerRef) → Type 0
AllKeysFrom k [] = Unit {0}
AllKeysFrom k (cs ∷ css) = KeysFrom k cs × AllKeysFrom k css

-- A slot for each container of the minuend, by whether some subtrahend has its key.
abbrev pub wanted_slots :
    (cs : List ContainerRef) → AreStored cs → List (List ContainerRef) → List SlotPlan
wanted_slots [] h rest = []
wanted_slots (c ∷ cs) ((n, e), h) rest =
    record { key = c.key; capacity = diff_cap c.card (n % 2 ^ 32) (any_container rest c.key) }
    ∷ wanted_slots cs h rest

absent : (k t : ℕ) (cs : List ContainerRef) → t < k → KeysFrom k cs → has_container cs t ≡ false
absent k t [] h f = refl
absent k t (c ∷ cs) h (a, f) = ground (arith, absent (c.key + 1) t cs)

drop_below-has_container :
    (k t : ℕ) (cs : List ContainerRef)
    → k ≤ t
    → has_container (drop_below k cs) t ≡ has_container cs t
unfolding drop_below
drop_below-has_container k t [] h = refl
drop_below-has_container k t (c ∷ cs) h = elim (Bool-cases (ltb c.key k)) [
  | inl y ↦
      let other : (c.key == t) ≡ false = ground (arith, y, h) in
      rw (y, drop_below) (rw other (drop_below-has_container k t cs h))
  | inr n ↦ rw (n, drop_below) refl
]

rests_on-drop_below :
    (k lo : ℕ) (cs : List ContainerRef)
    → KeysFrom lo cs
    → rests_on k (drop_below k cs) ≡ has_container cs k
unfolding drop_below
rests_on-drop_below k lo [] f = refl
rests_on-drop_below k lo (c ∷ cs) (a, f) = elim (Bool-cases (ltb c.key k)) [
  | inl y ↦
      let other : (c.key == k) ≡ false = ground (arith, y) in
      rw (y, drop_below) (rw other (rests_on-drop_below k (c.key + 1) cs f))
  | inr n ↦
      rw (n, drop_below)
        (elim (Bool-cases (c.key == k)) [
          | inl e ↦ rw e refl
          | inr e ↦ rw e (sym (absent (c.key + 1) k cs (ground (arith, n, e)) f))
        ])
]

drop_below-KeysFrom :
    (k lo : ℕ) (cs : List ContainerRef) → KeysFrom lo cs → KeysFrom lo (drop_below k cs)
unfolding drop_below
drop_below-KeysFrom k lo [] f = tt
drop_below-KeysFrom k lo (c ∷ cs) (a, f) = elim (Bool-cases (ltb c.key k)) [
  | inl y ↦
      rw (y, drop_below)
        (KeysFrom-weaken (c.key + 1) lo (drop_below k cs) (omega arith)
          (drop_below-KeysFrom k (c.key + 1) cs f))
  | inr n ↦ rw (n, drop_below) (a, f)
]

-- A seek hits exactly a key that is there, and keeps what stands at the keys from there on.
seek :
    (k lo : ℕ) (cs : List ContainerRef)
    → KeysFrom lo cs
    → (left : List ContainerRef) × (advance_to k (new cs) ≡ (new left, has_container cs k))
      × KeysFrom lo left
      × ((t : ℕ) → k ≤ t → has_container left t ≡ has_container cs t)
unfolding advance_to skip_dead drop_below
seek k lo [] f = ([], refl, tt, λ t h. refl)
seek k lo (c ∷ cs) f = elim (Bool-cases (c.key == k)) [
  | inl y ↦ (c ∷ cs, rw y refl, f, λ t h. refl)
  | inr n ↦ (
    drop_below k (c ∷ cs),
    rw n (
        ap (λ b. (new (drop_below k (c ∷ cs)), b))
          (rests_on-drop_below k lo (c ∷ cs) f ∙ ap (λ b. b || has_container cs k) n)),
    drop_below-KeysFrom k lo (c ∷ cs) f,
    λ t h. drop_below-has_container k t (c ∷ cs) h,
  )
]

any_hit_lem :
    (k lo : ℕ) (css : List (List ContainerRef))
    → AllKeysFrom lo css
    → (left : List (List ContainerRef)) × (any_hit k (map new css)
        ≡ (map new left, any_container css k))
      × AllKeysFrom lo left
      × ((t : ℕ) → k ≤ t → any_container left t ≡ any_container css t)
unfolding any_hit
any_hit_lem k lo [] f = ([], refl, tt, λ t h. refl)
any_hit_lem k lo (cs ∷ css) (f, g) =
    let (now, p, a, same) = seek k lo cs f in
    elim (Bool-cases (has_container cs k)) [
      | inl y ↦ (
        now ∷ css,
        took p
            ∙ ap (choose now) y
            ∙ ap (λ b. (new now ∷ map new css, b || any_container css k)) (sym y),
        (a, g),
        λ t h. ap (λ b. b || any_container css t) (same t h),
      )
      | inr n ↦
          let (left, q, b, rest) = any_hit_lem k lo css g in
          (
            now ∷ left,
            took p
                ∙ ap (choose now) n
                ∙ ap (λ r. (new now ∷ r.0, r.1)) q
                ∙ ap (λ b. (new now ∷ map new left, b || any_container css k)) (sym n),
            (a, b),
            λ t h. ap₂ ◌||◌ (same t h) (rest t h),
          )
    ]
  where
    choose : List ContainerRef → Bool → List Cursor × Bool
    choose now b =
        if b
        then (new now ∷ map new css, true)
        else (new now ∷ (any_hit k (map new css)).0, (any_hit k (map new css)).1)

    took :
        {now : List ContainerRef} {b : Bool}
        → advance_to k (new cs) ≡ (new now, b)
        → any_hit k (map new (cs ∷ css)) ≡ choose now b
    took p =
        ap
          (λ m.
            if m.1
            then (m.0 ∷ map new css, true)
            else (m.0 ∷ (any_hit k (map new css)).0, (any_hit k (map new css)).1))
          p

diff_slots_lem :
    (lo : ℕ) (cs : List ContainerRef) (h : AreStored cs) (css orig : List (List ContainerRef))
    → KeysFrom lo cs
    → AllKeysFrom 0 css
    → ((t : ℕ) → lo ≤ t → any_container css t ≡ any_container orig t)
    → diff_slots cs (map new css) ≡ ok (wanted_slots cs h orig)
unfolding diff_slots
diff_slots_lem lo [] h css orig f g same = refl
diff_slots_lem lo (c ∷ cs) ((n, e), h) css orig (a, f) g same =
    let (left, p, b, keeps) = any_hit_lem c.key 0 css g in
    let later =
      diff_slots_lem (c.key + 1) cs h left orig f b
        (λ t l. keeps t (omega arith) ∙ same t (omega arith)) in
    ap (λ m. m >>= λ stored. slots_with stored (any_hit c.key (map new css))) e
    ∙ ap (slots_with n) p
    ∙ ap (λ m. m >>= λ slots. ok (slot_at n (any_container css c.key) ∷ slots)) later
    ∙ ap (λ b. ok (slot_at n b ∷ wanted_slots cs h orig)) (same c.key a)
  where
    slot_at : ℕ → Bool → SlotPlan
    slot_at stored met = record { key = c.key; capacity = diff_cap c.card (stored % 2 ^ 32) met }

    slots_with : ℕ → List Cursor × Bool → Exec (List SlotPlan)
    slots_with stored met = diff_slots cs met.0 >>= λ slots. ok (slot_at stored met.1 ∷ slots)

-- Of inputs with ascending keys, the minuend's containers of types that the format knows, planning a
-- difference does not panic, and gives a slot for each container of the minuend, in order, whose
-- capacity is decided by whether any subtrahend has its key: that a round asks the subtrahends only
-- up to the first hit does not matter.
pub plan_diff-slots :
    (a : List ContainerRef) (rest : List (List ContainerRef)) (h : AreStored a)
    → KeysFrom 0 a
    → AllKeysFrom 0 rest
    → (plan : Plan) × (plan_diff (a ∷ rest) ≡ ok plan)
      × (plan.op ≡ Op.diff)
      × (plan.slots ≡ wanted_slots a h rest)
unfolding plan_diff
plan_diff-slots a rest h f g = (
  diff_plan (wants_partner_major Op.diff (wanted_slots a h rest)) (wanted_slots a h rest),
  ap (λ m. m >>= λ slots. ok (diff_plan (wants_partner_major Op.diff slots) slots))
      (diff_slots_lem 0 a h rest rest f g (λ t l. refl)),
  refl,
  refl,
)
