-- ===== src/Pci/Flat.antt =====
-- src/pci.rs: the scans against a walk over the 2048 functions of eight buses, by their number.
use nova_exo.Base.{
  ℕ, zero, suc, ◌+◌, ◌-◌, ◌*◌, ◌/◌, ◌%◌, ◌^◌, ◌<◌, ◌≡◌, refl, sym, ◌∙◌, ap, ap₂, not, ◌&&◌, List,
  [], ◌∷◌, ◌++◌, append_assoc, ◌==◌, if◌then◌else◌, arith, take,
}
use nova_exo.Pci.{
  Place, config_address, pci_config_read, absent, has_class, test_class, find_class, find_class_all,
}
use nova_exo.Pci.Scan.{concat_of, to_list, head, matches, find_class-head, find_class_all-take}

concat_of-cong {ℓ} :
    {A : Type ℓ} (f g : ℕ → List A) (i k : ℕ)
    → ((j : ℕ) → j < i + k → f j ≡ g j)
    → concat_of f i k ≡ concat_of g i k
unfolding concat_of
concat_of-cong f g i zero h = refl
concat_of-cong f g i (suc k) h =
    ap₂ ◌++◌ (h i (omega arith)) (concat_of-cong f g (i + 1) k (λ j l. h j (omega arith)))

concat_of-shift {ℓ} :
    {A : Type ℓ} (h : ℕ → List A) (a i k : ℕ)
    → concat_of (λ j. h (a + j)) i k ≡ concat_of h (a + i) k
unfolding concat_of
concat_of-shift h a i zero = refl
concat_of-shift h a i (suc k) =
    let e : a + (i + 1) ≡ a + i + 1 = omega arith in
    ap (h (a + i) ++◌) (concat_of-shift h a (i + 1) k ∙ ap (λ n. concat_of h n k) e)

concat_of-add {ℓ} :
    {A : Type ℓ} (h : ℕ → List A) (i m n : ℕ)
    → concat_of h i (m + n) ≡ concat_of h i m ++ concat_of h (i + m) n
unfolding concat_of
concat_of-add h i zero n =
    let a : 0 + n ≡ n = omega arith in
    let b : i ≡ i + 0 = omega arith in ap (λ k. concat_of h i k) a ∙ ap (λ j. concat_of h j n) b
concat_of-add h i (suc m) n =
    let a : suc m + n ≡ suc (m + n) = omega arith in
    let b : i + 1 + m ≡ i + suc m = omega arith in
    ap (λ k. concat_of h i k) a
    ∙ ap (h i ++◌)
        (concat_of-add h (i + 1) m n ∙ ap (λ j. concat_of h (i + 1) m ++ concat_of h j n) b)
    ∙ sym (append_assoc (h i) (concat_of h (i + 1) m) (concat_of h (i + suc m) n))

-- Rounds of m rounds are one walk.
concat_of-flat {ℓ} :
    {A : Type ℓ} (h : ℕ → List A) (m i k : ℕ)
    → concat_of (λ a. concat_of (λ b. h (a * m + b)) 0 m) i k ≡ concat_of h (i * m) (k * m)
unfolding concat_of
concat_of-flat h m i zero = let e : 0 ≡ 0 * m = omega arith in ap (λ k. concat_of h (i * m) k) e
concat_of-flat h m i (suc k) =
    let a : i * m + 0 ≡ i * m = omega arith in
    let b : (i + 1) * m ≡ i * m + m = omega arith in
    let c : m + k * m ≡ suc k * m = omega arith in
    ap₂ ◌++◌ (concat_of-shift h (i * m) 0 m ∙ ap (λ j. concat_of h j m) a)
      (concat_of-flat h m (i + 1) k ∙ ap (λ j. concat_of h j (k * m)) b)
    ∙ sym (concat_of-add h (i * m) m (k * m))
    ∙ ap (λ n. concat_of h (i * m) n) c

module _ (data_port : ℕ → ℕ) where
  -- The functions of the eight buses by their number, 8 for each of 32 slots: the place of those
  -- whose vendor, the low half of the first register, is not 0xFFFF, and whose class and subclass,
  -- the high half of the register at 8, are the given ones.
  unfoldable pub here : ℕ → ℕ → ℕ → List Place
  here class subclass n =
      if not (data_port (2 ^ 31 + n * 256) % 65536 == 0xFFFF)
        && data_port (2 ^ 31 + n * 256 + 8) / 65536 % 65536 == class * 256 + subclass
      then (n / 256, n / 8 % 32, n % 8) ∷ []
      else []

  unfoldable pub devices : ℕ → ℕ → List Place
  devices class subclass = concat_of (here class subclass) 0 2048

  module _ (class subclass : ℕ) (small_class : class < 256) (small_subclass : subclass < 256) where
    here_lem :
        (bus slot func : ℕ)
        → slot < 32
        → func < 8
        → to_list (test_class data_port class subclass bus slot func)
          ≡ here class subclass ((bus * 32 + slot) * 8 + func)
    unfolding test_class absent has_class pci_config_read config_address here
    here_lem bus slot func s f =
        let n = (bus * 32 + slot) * 8 + func in
        let a : 2 ^ 31 + bus * 65536 + slot * 2048 + func * 256 + (0 - 0 % 4) ≡ 2 ^ 31 + n * 256 =
          omega arith in
        let b : 2 ^ 31 + bus * 65536 + slot * 2048 + func * 256 + (8 - 8 % 4)
            ≡ 2 ^ 31 + n * 256 + 8 =
          omega arith in
        ground (arith, ap data_port a, ap data_port b)

    matches-devices : matches data_port class subclass ≡ devices class subclass
    unfolding matches devices
    matches-devices =
        let h = here class subclass in
        let row = λ (a : ℕ). concat_of (λ b. h (a * 8 + b)) 0 8 in
        concat_of-cong _ (λ bus. concat_of (λ slot. row (bus * 32 + slot)) 0 32) 0 8
          (λ bus k.
            concat_of-cong _ (λ slot. row (bus * 32 + slot)) 0 32
              (λ slot s.
                concat_of-cong _ (λ func. h ((bus * 32 + slot) * 8 + func)) 0 8
                  (λ func f. here_lem bus slot func s f)))
        ∙ concat_of-flat row 32 0 8
        ∙ concat_of-flat h 8 0 256

    -- For a class and a subclass below 256, find_class_all writes the first places, as many as fit, of
    -- those that a walk over the 2048 functions by their number meets with a vendor other than 0xFFFF
    -- and with this class and subclass in their registers; and find_class returns the first of them.
    pub find_class_all-devices :
        (room : ℕ)
        → (find_class_all data_port class subclass room ≡ take room (devices class subclass))
          × (find_class data_port class subclass ≡ head (devices class subclass))
    find_class_all-devices room = (
      find_class_all-take data_port class subclass room ∙ ap (take room) matches-devices,
      find_class-head data_port class subclass ∙ ap head matches-devices,
    )
