-- ===== src/Tests/Body.antt =====
-- The small organs with whole numbers in the place of f32.
use nova_exo.Base.{
  ℕ, zero, suc, ◌+◌, ◌-◌, ◌/◌, ◌≡◌, ◌≢◌, refl, Bool, true, false, none, some, List, [], ◌∷◌, arith,
  ltb, leb, if◌then◌else◌, replicate, get_or, or, codes, equal,
}
use nova_exo.Neurogenesis.{Weights, NeuroPool, clone_neuron, birth_check}
use nova_exo.Neurogenesis.Limit.{clone_neuron-Cloned, Cloned}
use nova_exo.Neurogenesis.Pool.{birth_check-fiftieth, checks, AllHigh}
use nova_exo.Omeostasi.{
  Attuatori, imposta, imposta_from, named, acceso, Readings, Regolatore, aggiorna_all,
}
use nova_exo.Omeostasi.Register.{imposta-acceso, IsValid}
use nova_exo.Omeostasi.Band.{aggiorna_all_lem, Proper, settled, each, prefixes}
use nova_exo.Riflesso.{Energies, Riflesso, percepisce, percepisce_all}
use nova_exo.Riflesso.Refractory.{percepisce-refractory}
use nova_exo.Pain.{arm, scadi_n}
use nova_exo.Pain.{new as calm}
use nova_exo.Pain.Countdown.{scadi_n-arm}
use nova_exo.HdaPath.{
  Sorgente, CandidatoController, scegli_pin, pin_from, scegli_controller, as_u8, first_from,
}
use nova_exo.HdaPath.Choice.{
  scegli_pin_lem, scegli_controller-Controller, Controller, internal_mic, any_mic, input_pin,
}

-- A weight and an error are numbers; an error of 5 is the threshold.
abbrev plain : Weights
plain = record {
  F32 = ℕ;
  W = ℕ;
  lt = ltb;
  add = λ x y. x + y;
  average = λ x. x / 500;
  zero_f = 0;
  birth_error_threshold = 5;
  mutate = λ seed cell gen w. w + seed;
}

abbrev pool : NeuroPool plain
pool = record {
  slots = replicate 4 (
      replicate 48
        (record { cell = 0; weights = none; trial_left = 0; trial_error = 0; born_at = 0 }));
  persist = 0 ∷ 0 ∷ 0 ∷ 0 ∷ [];
  births = 0;
  prunes = 0;
}

clone_neuron-Cloned_example : Cloned plain pool 2 (clone_neuron plain pool 2 11 3 7 90)
clone_neuron-Cloned_example = clone_neuron-Cloned plain pool 2 11 3 7 90 (omega arith) refl

all_high : (k : ℕ) → AllHigh plain (replicate k 6)
unfolding AllHigh
all_high zero = omega arith
all_high (suc k) = (refl, all_high k)

birth_check-fiftieth_example :
    ((checks plain (replicate 49 6) pool 1).1 ≡ replicate 49 false)
    × ((birth_check plain (checks plain (replicate 49 6) pool 1).0 1 8).1 ≡ true)
    × (get_or (birth_check plain (checks plain (replicate 49 6) pool 1).0 1 8).0.persist 1 0 ≡ 0)
birth_check-fiftieth_example =
    birth_check-fiftieth plain (replicate 49 6) 8 pool 1 (omega arith) refl refl (all_high 49) refl

-- A fan that is off and a light that is on.
abbrev organs : Attuatori
organs = record {
  a =
      some (record { id = codes "ventola"; acceso = false })
      ∷ some (record { id = codes "led"; acceso = true })
      ∷ replicate 6 none;
  n = 2;
}

organs-IsValid : IsValid organs
unfolding IsValid
organs-IsValid = (refl, omega arith)

imposta-acceso_example :
    ((imposta organs (codes "ventola") true).1 ≡ true
      → acceso (imposta organs (codes "ventola") true).0 (codes "ventola") ≡ true)
    × ((id' : List ℕ)
        → codes "ventola" ≢ id'
        → acceso (imposta organs (codes "ventola") true).0 id' ≡ acceso organs id')
imposta-acceso_example = imposta-acceso organs (codes "ventola") true organs-IsValid

fan_found : (imposta organs (codes "ventola") true).1 ≡ true
unfolding imposta imposta_from named equal
fan_found = refl

abbrev degrees : Readings
degrees = record { F32 = ℕ; lt = ltb; add = λ x y. x + y; sub = λ x y. x - y }

abbrev fan : Regolatore degrees
fan = record { setpoint = 60; banda = 5; alto = true }

band : Proper degrees 55 65
unfolding Proper
band = λ v h. ground arith

-- Two readings inside the band, one below it, and one inside again.
aggiorna_all_lem_example :
    ((aggiorna_all degrees fan (58 ∷ 65 ∷ 50 ∷ 60 ∷ [])).0
      ≡ record fan { alto = settled degrees 55 65 true (58 ∷ 65 ∷ 50 ∷ 60 ∷ []) })
    × ((aggiorna_all degrees fan (58 ∷ 65 ∷ 50 ∷ 60 ∷ [])).1
        ≡ each (settled degrees 55 65 true) (prefixes (58 ∷ 65 ∷ 50 ∷ 60 ∷ [])))
aggiorna_all_lem_example = aggiorna_all_lem degrees (58 ∷ 65 ∷ 50 ∷ 60 ∷ []) fan band

abbrev levels : Energies
levels = record { F32 = ℕ; lt = ltb; ge = λ x y. leb y x; zero_f = 0 }

-- The body was quiet, and a startle needs 50.
abbrev quiet : Riflesso levels
quiet = record {
  soglia = 50;
  quiete = 10;
  refrattario = 3;
  resta = 0;
  scatti = 0;
  energia_prec = 2;
  prima_volta = false;
}

startled : (percepisce levels quiet 80).1 ≡ true
unfolding percepisce
startled = refl

percepisce-refractory_example :
    (percepisce_all levels (percepisce levels quiet 80).0 (1 ∷ 90 ∷ 2 ∷ [])).1 ≡ replicate 3 false
percepisce-refractory_example =
    percepisce-refractory levels quiet 80 (1 ∷ 90 ∷ 2 ∷ []) startled (omega arith)

scadi_n-arm_example :
    scadi_n 4 (arm 0xBAD 9 calm) ≡ (if ltb 4 9 then record { addr = 0xBAD; tick = 9 - 4 } else calm)
scadi_n-arm_example = scadi_n-arm 4 0xBAD 9 calm (omega arith)

abbrev pin : Bool → Bool → Sorgente
pin mic internal = record { id = 0x1b; tipo = 4; input_cap = true; mic = mic; internal = internal }

abbrev sources : List Sorgente
sources = pin false false ∷ pin true false ∷ pin true true ∷ []

scegli_pin_lem_example :
    scegli_pin sources
    ≡ or
        (as_u8 (first_from internal_mic 0 sources))
        (or (as_u8 (first_from any_mic 0 sources)) (as_u8 (first_from input_pin 0 sources)))
scegli_pin_lem_example = scegli_pin_lem sources

internal_first : scegli_pin sources ≡ some 2
unfolding scegli_pin pin_from
internal_first = refl

abbrev controllers : List CandidatoController
controllers =
    record { presente = true; vendor = 0x1002 } ∷ record { presente = true; vendor = 0x10EC } ∷ []

scegli_controller-Controller_example : Controller controllers (scegli_controller controllers)
scegli_controller-Controller_example = scegli_controller-Controller controllers
