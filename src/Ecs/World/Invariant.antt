-- ===== src/Ecs/World/Invariant.antt =====
-- The ids of a world: each one that was given out is that of one entity, or dead.
use libcsics.Base.{
  ℕ, suc, ◌+◌, ◌-◌, ◌^◌, ◌%◌, ◌≤◌, ◌<◌, ◌≡◌, ◌≢◌, refl, sym, ◌∙◌, inl, inr, true, false, ◌==◌,
  if◌then◌else◌, List, [], ◌∷◌, some, length, get_or, arith, ==_refl, ne→not-==, ℕ-cases,
  Bool-cases, ltb, ltb→lt, not-ltb→le, length-append, length-set,
}
use libcsics.Ecs.SparseSet.{Entity, push_back, pop_back, length-pop_back}
use libcsics.Ecs.World.{
  World, add_entity, fresh_entity, reused_entity, has_entity, remove_entity, found, erase,
}

abbrev one : ℕ → ℕ → ℕ
one i j = if i == j then 1 else 0

-- How many entities have the id, and how often it is dead.
abbrev pub live : List Entity → ℕ → ℕ
live [] id = 0
live (e ∷ es) id = one e.id id + live es id

abbrev pub dead : List ℕ → ℕ → ℕ
dead [] id = 0
dead (d ∷ ds) id = one d id + dead ds id

pub record IsWorld (w : World) : Type 0 where
  pub counted : length w.entities + length w.dead_entities ≡ length w.generations
  pub once : (id : ℕ) → id < length w.generations → live w.entities id + dead w.dead_entities id ≡ 1
  pub none_beyond :
      (id : ℕ) → length w.generations ≤ id → live w.entities id + dead w.dead_entities id ≡ 0

live-push_back :
    (es : List Entity) (e : Entity) (id : ℕ) → live (push_back es e) id ≡ live es id + one e.id id
live-push_back [] e id = omega arith
live-push_back (x ∷ es) e id = omega (arith, live-push_back es e id)

dead-push_back : (ds : List ℕ) (d id : ℕ) → dead (push_back ds d) id ≡ dead ds id + one d id
dead-push_back [] d id = omega arith
dead-push_back (x ∷ ds) d id = omega (arith, dead-push_back ds d id)

dead-pop_back :
    (ds : List ℕ) (id : ℕ)
    → length ds ≢ 0
    → dead ds id ≡ dead (pop_back ds) id + one (get_or ds (length ds - 1) 0) id
dead-pop_back [] id h = absurd (h refl)
dead-pop_back (d ∷ []) id h = omega arith
dead-pop_back (d ∷ x ∷ ds) id h =
    let rest = dead-pop_back (x ∷ ds) id (λ e. omega arith) in
    let next : length (d ∷ x ∷ ds) - 1 ≡ suc (length (x ∷ ds) - 1) = omega arith in
    rw next (omega (arith, rest))

live-erase :
    (es : List Entity) (i id : ℕ) → found es i ≡ true → live es id ≡ live (erase es i) id + one i id
live-erase [] i id h = cc
live-erase (e ∷ es) i id h = elim (ℕ-cases e.id i) [
  | inl same ↦ rw (same, ==_refl i) (omega arith)
  | inr other ↦
      let skipped = ne→not-== e.id i other in
      let rest = live-erase es i id ((rw skipped at h)) in rw skipped (omega (arith, rest))
]

length-erase : (es : List Entity) (i : ℕ) → found es i ≡ true → length es ≡ length (erase es i) + 1
length-erase [] i h = cc
length-erase (e ∷ es) i h = elim (ℕ-cases e.id i) [
  | inl same ↦ rw (same, ==_refl i) (omega arith)
  | inr other ↦
      let skipped = ne→not-== e.id i other in
      let rest = length-erase es i ((rw skipped at h)) in rw skipped (omega (arith, rest))
]

-- The world has no entity of an id that is not live.
found-live : (es : List Entity) (i : ℕ) → live es i ≡ 0 → found es i ≡ false
found-live [] i h = refl
found-live (e ∷ es) i h = elim (ℕ-cases e.id i) [
  | inl same ↦ absurd (ground arith)
  | inr other ↦ let skipped = ne→not-== e.id i other in rw skipped (found-live es i (omega arith))
]

one_hit : (i j : ℕ) → i ≡ j → one i j ≡ 1
one_hit i j h = ground arith

one_miss : (i j : ℕ) → i ≢ j → one i j ≡ 0
one_miss i j h = ground arith

fresh_entity-IsWorld :
    (w : World)
    → IsWorld w
    → length w.dead_entities ≡ 0
    → length w.generations < 2 ^ 32
    → IsWorld (fresh_entity w).1 × (live w.entities (fresh_entity w).0.id ≡ 0)
fresh_entity-IsWorld w h none_dead small =
    let e = (fresh_entity w).0 in
    let id_eq : e.id ≡ length w.generations = omega (arith, h.counted) in
    let more = length-append w.generations (0 ∷ []) in
    (
      record {
        counted = omega (arith, h.counted, length-append w.entities (e ∷ []), more);
        once = λ id lt. elim (ℕ-cases e.id id) [
          | inl same ↦ omega (
            arith,
            live-push_back w.entities e id,
            one_hit e.id id same,
            h.none_beyond id (omega arith),
          )
          | inr other ↦ omega (
            arith,
            live-push_back w.entities e id,
            one_miss e.id id other,
            h.once id (omega arith),
          )
        ];
        none_beyond = λ id le. omega (
          arith,
          live-push_back w.entities e id,
          one_miss e.id id (omega arith),
          h.none_beyond id (omega arith),
        );
      },
      omega (arith, h.none_beyond e.id (omega arith)),
    )

-- An id that is dead was given out, and no entity has it.
dead-given :
    (w : World) (id : ℕ)
    → IsWorld w
    → 0 < dead w.dead_entities id
    → (id < length w.generations) × (live w.entities id ≡ 0)
dead-given w id h some_dead = elim (Bool-cases (ltb id (length w.generations))) [
  | inl lt ↦
      let given = ltb→lt id (length w.generations) lt in (given, omega (arith, h.once id given))
  | inr ge ↦ absurd (omega (arith, h.none_beyond id (not-ltb→le id (length w.generations) ge)))
]

reused_entity-IsWorld :
    (w : World) (id : ℕ)
    → IsWorld w
    → length w.dead_entities ≢ 0
    → id ≡ get_or w.dead_entities (length w.dead_entities - 1) 0
    → IsWorld (reused_entity w id).1 × (live w.entities (reused_entity w id).0.id ≡ 0)
reused_entity-IsWorld w id h some_dead last =
    let e = (reused_entity w id).0 in
    let gone : (j : ℕ) → dead w.dead_entities j ≡ dead (pop_back w.dead_entities) j + one id j =
      λ j. rw last (dead-pop_back w.dead_entities j some_dead) in
    let kept = length-set w.generations id ((get_or w.generations id 0 + 1) % 2 ^ 32) in
    let (given, free) = dead-given w id h (omega (arith, gone id, one_hit id id refl)) in
    (
      record {
        counted = omega (
          arith,
          h.counted,
          length-append w.entities (e ∷ []),
          length-pop_back w.dead_entities,
          kept,
        );
        once = λ j lt.
            omega (arith, live-push_back w.entities e j, gone j, h.once j (omega (arith, kept)));
        none_beyond = λ j le.
            omega
              (arith, live-push_back w.entities e j, gone j, h.none_beyond j (omega (arith, kept)));
      },
      free,
    )

-- Making an entity, where fewer than 2 ^ 32 ids were given out, keeps every id that was given out that
-- of one entity or dead once, and gives the new entity an id that no other has.
pub add_entity-IsWorld :
    (w : World)
    → IsWorld w
    → length w.generations < 2 ^ 32
    → IsWorld (add_entity w).1 × (live w.entities (add_entity w).0.id ≡ 0)
unfolding add_entity
add_entity-IsWorld w h small = elim (ℕ-cases (length w.dead_entities) 0) [
  | inl none_dead ↦ rw none_dead (fresh_entity-IsWorld w h none_dead small)
  | inr some_dead ↦ rw (ne→not-== (length w.dead_entities) 0 some_dead) (
      reused_entity-IsWorld w (get_or w.dead_entities (length w.dead_entities - 1) 0) h some_dead
        refl)
]

-- Removing an entity of the world succeeds and keeps every id that was given out that of one entity or
-- dead once; the world has no entity of that id afterwards, and every other entity that it had.
pub remove_entity-IsWorld :
    (w : World) (e : Entity)
    → IsWorld w
    → has_entity w e ≡ true
    → (w' : World) × (remove_entity w e ≡ some w')
      × IsWorld w'
      × (has_entity w' e ≡ false)
      × ((id : ℕ) → id ≢ e.id → live w'.entities id ≡ live w.entities id)
unfolding has_entity remove_entity
remove_entity-IsWorld w e h here =
    let w' : World = record w {
      entities = erase w.entities e.id;
      dead_entities = push_back w.dead_entities e.id;
    } in
    let taken : (id : ℕ) → live w.entities id ≡ live (erase w.entities e.id) id + one e.id id =
      λ id. live-erase w.entities e.id id here in
    let both : (id : ℕ)
        → live w'.entities id + dead w'.dead_entities id
          ≡ live w.entities id + dead w.dead_entities id =
      λ id. omega (arith, taken id, dead-push_back w.dead_entities e.id id) in
    let known : live w.entities e.id + dead w.dead_entities e.id ≤ 1 =
      elim (Bool-cases (ltb e.id (length w.generations))) [
        | inl lt ↦ omega (arith, h.once e.id (ltb→lt e.id (length w.generations) lt))
        | inr ge ↦ omega (arith, h.none_beyond e.id (not-ltb→le e.id (length w.generations) ge))
      ] in
    (
      w',
      rw here refl,
      record {
        counted = omega (
          arith,
          h.counted,
          length-erase w.entities e.id here,
          length-append w.dead_entities (e.id ∷ []),
        );
        once = λ id lt. both id ∙ h.once id lt;
        none_beyond = λ id le. both id ∙ h.none_beyond id le;
      },
      found-live (erase w.entities e.id) e.id
          (omega (arith, taken e.id, one_hit e.id e.id refl, known)),
      λ id other. omega (arith, taken id, one_miss e.id id (λ e'. other (sym e'))),
    )
