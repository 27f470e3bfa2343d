-- ===== src/Inference.antt =====
-- src/inference.rs: the contract of a brain that works one step a tick, and the stub that simulates
-- one.
pub mod Contract
pub mod Cycle
pub mod Reach
use nova_exo.Base.{
  ℕ, zero, suc, ◌+◌, ◌-◌, Bool, true, false, not, Option, none, some, List, [], ◌∷◌, leb,
  if◌then◌else◌, codes, u64,
}
use nova_exo.Fp.{Fp}

pub data BrainState : Type 0 where
  idle : BrainState
  thinking : (ticks_left : ℕ) → BrainState
  output : (ticks_left : ℕ) → BrainState

abbrev pub is_idle : BrainState → Bool
is_idle idle = true
is_idle (thinking t) = false
is_idle (output t) = false

unfoldable pub describe_state : BrainState → List ℕ
describe_state idle = codes "IDLE"
describe_state (thinking t) = codes "THINK"
describe_state (output t) = codes "OUTPUT"

abbrev pub t_think : ℕ
t_think = 25

-- `[f32; 4]`, the interpreted state of the body.
pub record Chemio {ℓ} (A : Type ℓ) : Type ℓ where
  pub c : A
  pub u : A
  pub p : A
  pub n : A

-- The trait: what the kernel asks of a brain; `name` is only logged.
pub record InferenceEngine (A : Type 0) : Type 1 where
  pub S : Type 0
  pub submit : S → Chemio A → S × Bool
  pub tick : S → S × Bool
  pub output : S → Option (Chemio A)
  pub state : S → BrainState
  pub set_corpo : A → A → S → S

-- `k` ticks in a row, with their results.
unfoldable pub ticks : {S : Type 0} → (S → S × Bool) → ℕ → S → S × List Bool
ticks tick zero b = (b, [])
ticks tick (suc k) b = let r = tick b in let rest = ticks tick k r.0 in (rest.0, r.1 ∷ rest.1)

module _ (fp : Fp) where
  open fp use {F, lit, neg, mul, clamp}

  pub record StubBrain : Type 0 where
    pub state : BrainState
    pub input : Chemio F
    pub answer : Option (Chemio F)
    pub total_think_ticks : ℕ

  unfoldable pub new : StubBrain
  new =
      let z = lit 0 0 in
      record {
        state = idle;
        input = record { c = z; u = z; p = z; n = z };
        answer = none;
        total_think_ticks = 0;
      }

  unfoldable pub submit : StubBrain → Chemio F → StubBrain × Bool
  submit b x =
      if not (is_idle b.state)
      then (b, false)
      else (record b { input = x; state = thinking t_think }, true)

  -- The output of a thought: the urgency smoothed, the polarity amplified.
  unfoldable pub refine : Chemio F → Chemio F
  refine x = record {
    c = x.c;
    u = mul x.u (lit 8 1);
    p = clamp (mul x.p (lit 12 1)) (neg (lit 1 0)) (lit 1 0);
    n = x.n;
  }

  -- One tick: its result is true when there is an output.
  unfoldable pub tick : StubBrain → StubBrain × Bool
  tick b = elim (b.state) [
    | idle ↦ (b, false)
    | thinking t ↦
        if leb t 1
        then (
          record b {
            total_think_ticks = u64 (b.total_think_ticks + 1);
            answer = some (refine b.input);
            state = output 2;
          },
          true,
        )
        else (
          record b { total_think_ticks = u64 (b.total_think_ticks + 1); state = thinking (t - 1) },
          false,
        )
    | output t ↦
        (if leb t 1 then record b { state = idle } else record b { state = output (t - 1) }, true)
  ]

unfoldable pub stub : (fp : Fp) → InferenceEngine fp.F
unfolding submit tick
stub fp = record {
  S = StubBrain fp;
  submit = submit fp;
  tick = tick fp;
  output = λ b. b.answer;
  state = λ b. b.state;
  set_corpo = λ m s b. b;  -- the default of the trait
}

-- The dispatcher: the brain is one of two, and every call goes to it.
pub data AnyBrain (S T : Type 0) : Type 0 where
  first : S → AnyBrain S T
  second : T → AnyBrain S T

module _ {A : Type 0} (e f : InferenceEngine A) where
  unfoldable pub any_submit : AnyBrain e.S f.S → Chemio A → AnyBrain e.S f.S × Bool
  any_submit (first b) x = let r = e.submit b x in (first r.0, r.1)
  any_submit (second b) x = let r = f.submit b x in (second r.0, r.1)

  unfoldable pub any_tick : AnyBrain e.S f.S → AnyBrain e.S f.S × Bool
  any_tick (first b) = let r = e.tick b in (first r.0, r.1)
  any_tick (second b) = let r = f.tick b in (second r.0, r.1)

  unfoldable pub any_output : AnyBrain e.S f.S → Option (Chemio A)
  any_output (first b) = e.output b
  any_output (second b) = f.output b

  unfoldable pub any_state : AnyBrain e.S f.S → BrainState
  any_state (first b) = e.state b
  any_state (second b) = f.state b

  unfoldable pub any_set_corpo : A → A → AnyBrain e.S f.S → AnyBrain e.S f.S
  any_set_corpo m s (first b) = first (e.set_corpo m s b)
  any_set_corpo m s (second b) = second (f.set_corpo m s b)

  unfoldable pub any_brain : InferenceEngine A
  unfolding any_submit any_tick any_output any_state any_set_corpo
  any_brain = record {
    S = AnyBrain e.S f.S;
    submit = any_submit;
    tick = any_tick;
    output = any_output;
    state = any_state;
    set_corpo = any_set_corpo;
  }
