-- ===== src/Rt/Unwind/Wind.antt =====
-- The first loop of `dequeue_rt_stack`: it sets the `back` pointers along the chain.
use cmsc421prj.Base.{
  ℕ, ◌+◌, true, false, Option, none, some, List, [], ◌∷◌, ◌≡◌, refl, ◌∙◌, ap, ◌==◌, arith,
  Bool-cases, inl, inr, length,
}
use cmsc421prj.State.Data.{Sys}
use cmsc421prj.State.Setters.{set_ent}
use cmsc421prj.Rt.Walk.{link_back}
use cmsc421prj.Rt.Core.Bits.{contains}
use cmsc421prj.Rt.Unwind.Chains.{Chain, Wound, Chain-fresh}

-- The two states differ in `back` pointers at most.
pub record SameButBack (s s' : Sys) : Type 0 where
  pub tasks : s'.task ≡ s.task
  pub queues : s'.rtq ≡ s.rtq
  pub depth : s'.depth ≡ s.depth
  pub parent : (j : ℕ) → (s'.ent j).parent ≡ (s.ent j).parent
  pub rt_rq : (j : ℕ) → (s'.ent j).rt_rq ≡ (s.ent j).rt_rq
  pub my_q : (j : ℕ) → (s'.ent j).my_q ≡ (s.ent j).my_q
  pub run_list : (j : ℕ) → (s'.ent j).run_list ≡ (s.ent j).run_list

SameButBack-trans : (s t u : Sys) → SameButBack s t → SameButBack t u → SameButBack s u
SameButBack-trans s t u a b = record {
  tasks = b.tasks ∙ a.tasks;
  queues = b.queues ∙ a.queues;
  depth = b.depth ∙ a.depth;
  parent = λ j. b.parent j ∙ a.parent j;
  rt_rq = λ j. b.rt_rq j ∙ a.rt_rq j;
  my_q = λ j. b.my_q j ∙ a.my_q j;
  run_list = λ j. b.run_list j ∙ a.run_list j;
}

SameButBack-self : (s : Sys) → SameButBack s s
SameButBack-self s = record {
  tasks = refl;
  queues = refl;
  depth = refl;
  parent = λ j. refl;
  rt_rq = λ j. refl;
  my_q = λ j. refl;
  run_list = λ j. refl;
}

abbrev set_back : Sys → ℕ → Option ℕ → Sys
set_back s e b = set_ent s e (record (s.ent e) { back = b })

set_back-SameButBack : (s : Sys) (e : ℕ) (b : Option ℕ) → SameButBack s (set_back s e b)
set_back-SameButBack s e b = record {
  tasks = refl;
  queues = refl;
  depth = refl;
  parent = λ j. ground arith;
  rt_rq = λ j. ground arith;
  my_q = λ j. ground arith;
  run_list = λ j. ground arith;
}

Chain-same :
    (s s' : Sys) (o : Option ℕ) (xs : List ℕ)
    → ((j : ℕ) → (s'.ent j).parent ≡ (s.ent j).parent)
    → Chain s o xs
    → Chain s' o xs
Chain-same s s' o [] h c = c
Chain-same s s' o (x ∷ xs) h (c, cs) = (c, Chain-same s s' (s'.ent x).parent xs h (rw (h x) cs))

Wound-set_back :
    (s : Sys) (e : ℕ) (b p o : Option ℕ) (xs : List ℕ)
    → contains e xs ≡ false
    → Wound s p o xs
    → Wound (set_back s e b) p o xs
Wound-set_back s e b p o [] h w = w
Wound-set_back s e b p o (x ∷ xs) h (w, v, ws) =
    let ne : (e == x) ≡ false = ground arith in
    let rest : contains e xs ≡ false = ground arith in
    let same : (set_back s e b).ent x ≡ s.ent x = rw ne refl in
    (w, rw same v, rw same (Wound-set_back s e b (some x) (s.ent x).back xs rest ws))

-- What the loop leaves: the chain of `back` pointers from the top down.
pub record IsWound (s : Sys) (back : Option ℕ) (es acc : List ℕ) : Type 0 where
  pub down : List ℕ
  pub wound : Wound (link_back s back es).0 none (link_back s back es).1 down
  pub size : length down ≡ length es + length acc
  pub covers : (j : ℕ) → contains j es ≡ true → contains j down ≡ true
  pub keeps : (j : ℕ) → contains j acc ≡ true → contains j down ≡ true
  pub same : SameButBack s (link_back s back es).0

apart :
    (s : Sys) (e : ℕ) (es acc : List ℕ)
    → Chain s (some e) (e ∷ es)
    → ((j : ℕ) → contains j (e ∷ es) ≡ true → contains j acc ≡ false)
    → (j : ℕ) → contains j es ≡ true
    → contains j (e ∷ acc) ≡ false
apart s e es acc c d j h =
    let fresh = Chain-fresh s e es c in
    elim (Bool-cases (e == j)) [
      | inl y ↦
          let eq : e ≡ j = ground arith in
          absurd (ground (arith, fresh, ap (λ k. contains k es) eq))
      | inr n ↦ rw n (d j (rw n h))
    ]

-- The loop turns the chain of parents into a chain of `back` pointers.
pub link_back-IsWound :
    (s : Sys) (o back : Option ℕ) (es acc : List ℕ)
    → Chain s o es
    → Wound s o back acc
    → ((j : ℕ) → contains j es ≡ true → contains j acc ≡ false)
    → IsWound s back es acc
unfolding link_back
link_back-IsWound s o back [] acc c w d = record {
  down = acc;
  wound = rw (← c) w;
  size = omega arith;
  covers = λ j h. cc;
  keeps = λ j h. h;
  same = SameButBack-self s;
}
link_back-IsWound s o back (e ∷ es) acc (c, cs) w d =
    let s2 = set_back s e back in
    let here = set_back-SameButBack s e back in
    let off : contains e acc ≡ false = d e (ground arith) in
    let self : (s2.ent e).back ≡ back = ground arith in
    let r =
      link_back-IsWound s2 (s.ent e).parent (some e) es (e ∷ acc)
        (Chain-same s s2 (s.ent e).parent es here.parent cs)
        (refl, here.parent e, rw self (Wound-set_back s e back (some e) back acc off (rw c at w)))
        (apart s e es acc (refl, cs) d) in
    record {
      down = r.down;
      wound = r.wound;
      size = omega (arith, r.size);
      covers = λ j h. elim (Bool-cases (e == j)) [
        | inl y ↦ r.keeps j (rw y refl)
        | inr n ↦ r.covers j (rw n at h)
      ];
      keeps = λ j h. elim (Bool-cases (e == j)) [
        | inl y ↦ r.keeps j (rw y refl)
        | inr n ↦ r.keeps j (rw n h)
      ];
      same = SameButBack-trans s s2 (link_back s back (e ∷ es)).0 here r.same;
    }
