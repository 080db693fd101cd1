-- ===== src/Backend/Drive.antt =====
-- Runs of a job by evaluation: the caller and the workers move in a given order, each by its next
-- step if it has one.
use xiaotu_moe.Base.{
  refl, arith, ℕ, ◌<◌, ◌≡◌, ℕ_discrete, dec_lt, inl, inr, List, [], ◌∷◌, Option, none, some, Bool,
  true, ◌⊎◌, false,
}
use xiaotu_moe.Backend.Nodes.{Share}
use xiaotu_moe.Backend.Workers.{
  Crew, Pc, idle, testing, fetching, look, take, stolen, Job, Step, Run, begin,
}

abbrev test : (b : Bool) → (b ≡ true) ⊎ (b ≡ false)
test true = inl refl
test false = inr refl

-- The state behind at most one step.
abbrev Reached : Crew → Job → Type 0
Reached c s = (t : Job) × Run c s t

abbrev one : {c : Crew} {s t : Job} → Step c s t → Reached c s
one st = (_, Run.next begin st)

abbrev stay : (c : Crew) (s : Job) → Reached c s
stay c s = (s, begin)

pub act : (c : Crew) (s : Job) (j : ℕ) → j < c.max_threads → (p : Pc) → s.pc j ≡ p → Reached c s
act c s j lt idle e = elim (test (s.working j)) [
  | inl w ↦ one (Step.start j lt e w)
  | inr w ↦ stay c s
]
act c s j lt testing e = elim (test (s.working j)) [
  | inl w ↦ one (Step.go_on j lt e w)
  | inr w ↦ one (Step.leave j lt e w)
]
act c s j lt fetching e = elim (dec_lt (s.curr j) (s.end j)) [
  | yes l ↦ one (Step.claim j lt e l)
  | no n ↦ one (Step.exhaust j lt e (omega arith))
]
act c s j lt (Pc.claimed t) e = one (Step.run j t lt e)
act c s j lt (look i) e = elim (dec_lt i c.max_threads) [
  | no n ↦ one (Step.finish j i lt e (omega arith))
  | yes l ↦ elim (ℕ_discrete (c.node_of j) (c.node_of i)) [
    | no d ↦ one (Step.pass j i lt e l (inl d))
    | yes a ↦ elim (ℕ_discrete (c.cpu_of j) (c.cpu_of i)) [
      | yes b ↦ one (Step.pass j i lt e l (inr (inl b)))
      | no d ↦ elim (test (s.working i)) [
        | inl w ↦ one (Step.target j i lt e l a d w)
        | inr w ↦ one (Step.pass j i lt e l (inr (inr w)))
      ]
    ]
  ]
]
act c s j lt (take i) e = elim (dec_lt (s.curr i) (s.end i)) [
  | yes l ↦ one (Step.steal j i lt e l)
  | no n ↦ one (Step.spend j i lt e (omega arith))
]
act c s j lt (stolen i t) e = one (Step.run_stolen j i t lt e)

pub call : (c : Crew) (s : Job) (todo : List Share) → s.todo ≡ todo → Reached c s
call c s [] e = elim (dec_lt s.waited c.max_threads) [
  | no n ↦ stay c s
  | yes l ↦ elim (test (s.working s.waited)) [ inl w ↦ stay c s | inr w ↦ one (Step.wait e l w) ]
]
call c s (x ∷ rest) e = one (Step.write x rest e)

-- One turn: of the caller, or of worker j.
pub turn : (c : Crew) (s : Job) → Option ℕ → Reached c s
turn c s none = call c s s.todo refl
turn c s (some j) = elim (dec_lt j c.max_threads) [
  | no n ↦ stay c s
  | yes l ↦ act c s j l (s.pc j) refl
]

join : (c : Crew) (s t u : Job) → Run c s t → Run c t u → Run c s u
join c s t u r Run.begin = r
join c s t u r (Run.next {t = v} q st) = Run.next (join c s t v r q) st

unfoldable pub drive : (c : Crew) (s : Job) → List (Option ℕ) → Reached c s
unfolding turn act call join
drive c s [] = stay c s
drive c s (x ∷ xs) = let (t, r) = turn c s x in let (u, q) = drive c t xs in (u, join c s t u r q)
