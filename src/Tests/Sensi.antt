-- ===== src/Tests/Sensi.antt =====
-- A register of three senses.
use nova_exo.Base.{
  ◌+◌, ◌≤◌, ◌≡◌, refl, ◌&&◌, some, [], ◌∷◌, arith, ltb, ◌==◌, if◌then◌else◌, codes, length,
}
use nova_exo.Sensi.{
  estero, intero, riflesso, integrazione, fresca, valido, guasto, Canale, Registro, max_canali, new,
  registra, get, conta_via, conta_guasti, ordine, piu_urgente, before?, before, best_from, swap,
  is_guasto,
}
use nova_exo.Sensi.Register.{
  IsValid, new-IsValid, registra-IsValid, get-registra, conta_guasti-registra, conta_via-sum,
}
use nova_exo.Sensi.Select.{count}
use nova_exo.Sensi.Order.{ordine-perm, ordine-served}

abbrev udito : Canale
udito = record {
  id = codes "udito";
  famiglia = estero;
  via = integrazione;
  latenza_max = 50;
  politica = fresca;
  priorita = 2;
  stato = guasto;
}

abbrev tatto : Canale
tatto = record udito { id = codes "tatto"; via = riflesso; priorita = 1; stato = valido }

abbrev memoria : Canale
memoria = record udito { id = codes "memoria"; famiglia = intero; priorita = 0; stato = valido }

abbrev one : Registro
one = (registra new udito).0

abbrev two : Registro
two = (registra one tatto).0

abbrev three : Registro
three = (registra two memoria).0

one-IsValid : IsValid one
one-IsValid = registra-IsValid udito new-IsValid

three-IsValid : IsValid three
three-IsValid = registra-IsValid memoria (registra-IsValid tatto one-IsValid)

ordine-three : ordine three ≡ 1 ∷ 2 ∷ 0 ∷ []
unfolding ordine registra new best_from swap piu_urgente before? before
ordine-three = refl

get-registra_example :
    ((registra one tatto).1 ≡ ltb one.n max_canali)
    × ((registra one tatto).0.n ≡ (if ltb one.n max_canali then one.n + 1 else one.n))
    × (get (registra one tatto).0 1
        ≡ (if ltb one.n max_canali && 1 == one.n then some tatto else get one 1))
get-registra_example = get-registra tatto 1 one-IsValid

conta_guasti-registra_example :
    conta_guasti (registra new udito).0
    ≡ conta_guasti new + (if ltb new.n max_canali && is_guasto guasto then 1 else 0)
conta_guasti-registra_example = conta_guasti-registra udito new-IsValid

conta_via-sum_example : conta_via three riflesso + conta_via three integrazione ≡ three.n
conta_via-sum_example = conta_via-sum three-IsValid

ordine-perm_example :
    (length (ordine three) ≡ three.n) × (count 2 (ordine three) ≡ (if ltb 2 three.n then 1 else 0))
ordine-perm_example = ordine-perm three-IsValid 2

ordine-served_example :
    (integrazione ≡ riflesso → riflesso ≡ riflesso) × (riflesso ≡ integrazione → 1 ≤ 0)
unfolding ordine registra new best_from swap piu_urgente before? before
ordine-served_example =
    ordine-served three-IsValid 0 1 {x = tatto} {y = memoria} (omega arith) (omega arith) refl refl
