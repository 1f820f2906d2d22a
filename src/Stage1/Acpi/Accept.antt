-- ===== src/Stage1/Acpi/Accept.antt =====
-- acpi_init of stage1/acpi.c compared with a description of the tables that it accepts.
use biefircate.Prelude.{
  ℕ, zero, suc, ◌*◌, ◌<◌, sym, ok, ◌+◌, ◌%◌, ◌≤◌, ◌≡◌, inl, inr, refl, ap, ◌∙◌, bit_and, Bool, true,
  false, not, ◌&&◌, ◌||◌, List, [], ◌∷◌, arith, leb, ◌==◌, ◌!=◌, if◌then◌else◌, Bool-cases, subst,
  ◌++◌, Gives, Gives-bind, length, All, Outcome, stop, Stop, require, ◌>>◌, ◌>>=◌,
}
use biefircate.Prelude.Tables.{holds_below, holds_below-at, holds_below-intro}
use biefircate.Bparams.{Bparm, Bdat, bp_rsdp, sizeof_rsdp}
use biefircate.Stage1.Bparm.{State, fill, bparm_add}
use biefircate.Stage1.Bparm.Chain.{Params, Holds, blank_param, fill-Holds}
use biefircate.Stage1.Bparm.Append.{IsAppended, bparm_add-Gives, filled-middle}
use biefircate.Stage1.Util.Cksum.{IsByte, sum, compute_cksum_lem}
use biefircate.Stage1.Acpi.{
  Tables, same_bytes, expect_rsdp_sig, expect_xsdt_sig, fadt_sig, madt_sig, check_cksum,
  acpi_process_fadt, acpi_process_madt, process_table, process_tables, num_tabs, add_rsdp,
  acpi_init,
}

-- The bytes add up to a multiple of 256.
abbrev pub is_summed : List ℕ → ℕ → ℕ → Bool
is_summed buf p n = sum buf p n % 256 == 0

-- A FADT is long enough and does not rule out an RTC, and a MADT tells of 8259 controllers.
unfoldable pub is_fine : Tables → ℕ → Bool
is_fine T tab =
    if same_bytes (T.signature tab) fadt_sig
    then leb T.end_of_iapc_boot_flags (T.table_length tab)
      && (bit_and (T.iapc_boot_flags tab) 32 == 0)
    else not (same_bytes (T.signature tab) madt_sig) || (bit_and (T.madt_flags tab) 1 != 0)

-- So is each table of the XSDT whose 8-byte entry lies in it as a whole.
unfoldable pub are_fine : Tables → ℕ → Bool
are_fine T xsdt = holds_below (T.table_length xsdt) (λ i.
    not (leb (T.sizeof_header + 8 * (i + 1)) (T.table_length xsdt)) || is_fine T (T.tables xsdt i))

unfoldable pub is_rsdp : Tables → ℕ → Bool
is_rsdp T rsdp =
    same_bytes (T.rsdp_signature rsdp) expect_rsdp_sig
    && (leb 2 (T.revision rsdp)
        && (leb T.sizeof_xsdp (T.rsdp_length rsdp)
            && (is_summed T.buf rsdp T.offsetof_length
                && is_summed T.buf rsdp (T.rsdp_length rsdp))))

unfoldable pub is_xsdt : Tables → ℕ → Bool
is_xsdt T xsdt =
    same_bytes (T.signature xsdt) expect_xsdt_sig
    && (leb (T.sizeof_header + 8) (T.table_length xsdt)
        && (is_summed T.buf xsdt (T.table_length xsdt) && are_fine T xsdt))

-- The tables lie in memory.
pub record IsReadable (T : Tables) (rsdp : ℕ) : Type 0 where
  pub bytes : All IsByte T.buf
  pub first : rsdp + T.offsetof_length ≤ length T.buf
  pub whole : rsdp + T.rsdp_length rsdp ≤ length T.buf
  pub xsdt_in : T.xsdt rsdp + T.table_length (T.xsdt rsdp) ≤ length T.buf

abbrev pub guarded {ℓ} : {A : Type ℓ} → Bool → Outcome A → Outcome A
guarded b k = if b then k else stop Stop.error

guarded-and {ℓ} :
    {A : Type ℓ} (b c : Bool) (rest k : Outcome A)
    → rest ≡ guarded c k
    → (require b Stop.error >> rest) ≡ guarded (b && c) k
guarded-and true c rest k h = h
guarded-and false c rest k h = refl

-- The same for a step that is such a check.
step-guarded {ℓ} :
    {A : Type ℓ} (step : Outcome (Unit {0})) (b c : Bool) (rest k : Outcome A)
    → step ≡ require b Stop.error
    → rest ≡ guarded c k
    → (step >> rest) ≡ guarded (b && c) k
step-guarded step b c rest k e h = ap (λ t. t >> rest) e ∙ guarded-and b c rest k h

step-last {ℓ} :
    {A : Type ℓ} (step : Outcome (Unit {0})) (b : Bool) (k : Outcome A)
    → step ≡ require b Stop.error
    → (step >> k) ≡ guarded b k
step-last step true k e = ap (λ t. t >> k) e
step-last step false k e = ap (λ t. t >> k) e

guarded-both {ℓ} :
    {A : Type ℓ} (b c : Bool) (k : Outcome A) → guarded b (guarded c k) ≡ guarded (b && c) k
guarded-both true c k = refl
guarded-both false c k = refl

check_cksum_lem :
    (buf : List ℕ) (p n : ℕ)
    → All IsByte buf
    → p + n ≤ length buf
    → check_cksum buf p n ≡ require (is_summed buf p n) Stop.error
unfolding check_cksum
check_cksum_lem buf p n h l =
    let (c, e, small, zero_sum) = compute_cksum_lem buf p n h l in
    let same : (c == 0) ≡ is_summed buf p n = ground (arith, small, zero_sum) in
    ap (λ (t : Outcome ℕ). t >>= λ c. require (c == 0) Stop.error) e
    ∙ ap (λ b. require b Stop.error) same

process_table_lem :
    (T : Tables) (tab : ℕ) → process_table T tab ≡ require (is_fine T tab) Stop.error
unfolding process_table acpi_process_fadt acpi_process_madt is_fine
process_table_lem T tab = elim (Bool-cases (same_bytes (T.signature tab) fadt_sig)) [
  | inl fadt ↦ elim (Bool-cases (leb T.end_of_iapc_boot_flags (T.table_length tab))) [
    | inl long ↦ rw (fadt, long) refl
    | inr short ↦ rw (fadt, short) refl
  ]
  | inr other ↦ elim (Bool-cases (same_bytes (T.signature tab) madt_sig)) [
    | inl madt ↦ rw (other, madt) refl
    | inr neither ↦ rw (other, neither) refl
  ]
]

require-both :
    (step rest : Outcome (Unit {0})) (b c : Bool)
    → step ≡ require b Stop.error
    → rest ≡ require c Stop.error
    → (step >> rest) ≡ require (b && c) Stop.error
require-both step rest true c e h = ap (λ t. t >> rest) e ∙ h
require-both step rest false c e h = ap (λ t. t >> rest) e

-- The tables from the `i`-th on, as the loop goes through them.
unfoldable all_fine : Tables → ℕ → ℕ → ℕ → Bool
all_fine T xsdt zero i = true
all_fine T xsdt (suc left) i = is_fine T (T.tables xsdt i) && all_fine T xsdt left (i + 1)

process_tables-all_fine :
    (T : Tables) (xsdt left i : ℕ)
    → process_tables T xsdt left i ≡ require (all_fine T xsdt left i) Stop.error
unfolding process_tables all_fine
process_tables-all_fine T xsdt zero i = refl
process_tables-all_fine T xsdt (suc left) i =
    require-both (process_table T (T.tables xsdt i)) (process_tables T xsdt left (i + 1)) _ _
      (process_table_lem T (T.tables xsdt i)) (process_tables-all_fine T xsdt left (i + 1))

all_fine-at :
    (T : Tables) (xsdt left i k : ℕ)
    → all_fine T xsdt left i ≡ true
    → i ≤ k
    → k < i + left
    → is_fine T (T.tables xsdt k) ≡ true
unfolding all_fine
all_fine-at T xsdt zero i k h lo hi = absurd (omega (arith, lo, hi))
all_fine-at T xsdt (suc left) i k h lo hi = elim (Bool-cases (k == i)) [
  | inl e ↦ let at : k ≡ i = ground (arith, e) in rw at (ground (arith, h))
  | inr e ↦
      all_fine-at T xsdt left (i + 1) k (ground (arith, h)) (ground (arith, e, lo))
        (omega (arith, hi))
]

all_fine-intro :
    (T : Tables) (xsdt left i : ℕ)
    → ((k : ℕ) → i ≤ k → k < i + left → is_fine T (T.tables xsdt k) ≡ true)
    → all_fine T xsdt left i ≡ true
unfolding all_fine
all_fine-intro T xsdt zero i h = refl
all_fine-intro T xsdt (suc left) i h =
    let first = h i (omega arith) (omega arith) in
    let rest =
      all_fine-intro T xsdt left (i + 1) (λ k lo hi. h k (omega (arith, lo)) (omega (arith, hi))) in
    rw (first, rest) refl

-- The loop goes through just the whole entries.
num_tabs_lem :
    (T : Tables) (xsdt i : ℕ)
    → (i < num_tabs T xsdt → T.sizeof_header + 8 * (i + 1) ≤ T.table_length xsdt)
      × (T.sizeof_header + 8 * (i + 1) ≤ T.table_length xsdt → i < num_tabs T xsdt)
num_tabs_lem T xsdt i = (λ h. omega (arith, h), λ h. omega (arith, h))

both_ways : (a b : Bool) → (a ≡ true → b ≡ true) → (b ≡ true → a ≡ true) → a ≡ b
both_ways true b f g = sym (f refl)
both_ways false true f g = g refl
both_ways false false f g = refl

all_fine-are_fine : (T : Tables) (xsdt : ℕ) → all_fine T xsdt (num_tabs T xsdt) 0 ≡ are_fine T xsdt
unfolding are_fine
all_fine-are_fine T xsdt =
    let test = λ (i : ℕ).
      not (leb (T.sizeof_header + 8 * (i + 1)) (T.table_length xsdt))
      || is_fine T (T.tables xsdt i) in
    both_ways (all_fine T xsdt (num_tabs T xsdt) 0) (holds_below (T.table_length xsdt) test)
      (λ h. holds_below-intro test (T.table_length xsdt) (λ i lt.
        elim (Bool-cases (leb (T.sizeof_header + 8 * (i + 1)) (T.table_length xsdt))) [
          | inr out ↦ rw out refl
          | inl whole ↦
              let fine = all_fine-at T xsdt (num_tabs T xsdt) 0 i h (omega arith) (
                let inside = (num_tabs_lem T xsdt i).1 (ground (arith, whole)) in
                omega (arith, inside)) in
              rw (whole, fine) refl
        ]))
      λ h. all_fine-intro T xsdt (num_tabs T xsdt) 0 λ i lo hi.
        let inside = (num_tabs_lem T xsdt i).0 (omega (arith, hi)) in
        let at = holds_below-at test (T.table_length xsdt) i (omega (arith, inside)) h in
        let whole : leb (T.sizeof_header + 8 * (i + 1)) (T.table_length xsdt) ≡ true =
          ground (arith, inside) in
        rw whole at at

process_tables_lem :
    (T : Tables) (xsdt : ℕ)
    → process_tables T xsdt (num_tabs T xsdt) 0 ≡ require (are_fine T xsdt) Stop.error
process_tables_lem T xsdt =
    process_tables-all_fine T xsdt (num_tabs T xsdt) 0
    ∙ ap (λ b. require b Stop.error) (all_fine-are_fine T xsdt)

-- The checks of the RSDP before `rest`.
abbrev acpi_init_with : Tables → ℕ → Outcome State → Outcome State
acpi_init_with T rsdp rest =
    require (same_bytes (T.rsdp_signature rsdp) expect_rsdp_sig) Stop.error
    >> (require (leb 2 (T.revision rsdp)) Stop.error
        >> (require (leb T.sizeof_xsdp (T.rsdp_length rsdp)) Stop.error
            >> (check_cksum T.buf rsdp T.offsetof_length
                >> (check_cksum T.buf rsdp (T.rsdp_length rsdp) >> rest))))

abbrev pub rsdp_param : ℕ → ℕ → Bparm
rsdp_param rsdp sz = record {
  type = bp_rsdp;
  size = sizeof_rsdp;
  u = Bdat.rsdp (record { rsdp_phy_addr = rsdp; rsdp_sz = sz });
}

-- The parameter with the RSDP's address and some size is at the end of the list.
abbrev pub IsRegistered : ℕ → ℕ → Params → State → Type 0
IsRegistered rsdp sz ps s = (a : ℕ) × Holds s (ps ++ (a, rsdp_param rsdp sz) ∷ [])

-- A new parameter with these data.
abbrev pub register : ℕ → ℕ → State → Outcome State
register rsdp sz s = bparm_add bp_rsdp sizeof_rsdp s >>= λ (a, s').
    ok (fill a (Bdat.rsdp (record { rsdp_phy_addr = rsdp; rsdp_sz = sz })) s')

register-IsRegistered :
    (rsdp sz : ℕ) (s : State) (ps : Params)
    → Holds s ps
    → Gives (IsRegistered rsdp sz ps) (register rsdp sz s)
register-IsRegistered rsdp sz s ps h =
    Gives-bind (IsAppended ps bp_rsdp sizeof_rsdp) (IsRegistered rsdp sz ps)
      (bparm_add bp_rsdp sizeof_rsdp s) _ (bparm_add-Gives s ps bp_rsdp sizeof_rsdp h)
      λ (a, s1) holds.
        let blank = blank_param bp_rsdp sizeof_rsdp in
        let d = Bdat.rsdp (record { rsdp_phy_addr = rsdp; rsdp_sz = sz }) in
        (
          a,
          subst (λ (qs : Params). Holds (fill a d s1) qs)
              (filled-middle a d blank ps [] holds.distinct)
              (fill-Holds s1 (ps ++ (a, blank) ∷ []) a d holds),
        )

-- `acpi_init`, where the tables that it sums lie in memory: it comes to what adding a parameter comes to
-- if the RSDP and the XSDT are accepted, and to a call of `error` if not. An RSDP is accepted if its
-- signature, its revision and its size are right and its bytes add up to a multiple of 256, those of its
-- first part and all; an XSDT is if this holds of its signature, size and bytes, and if of the tables whose
-- entries lie in it as a whole each FADT is large enough and does not rule out an RTC, and each MADT tells
-- of 8259 controllers. With the boot parameters in a list, adding the parameter calls `error`, or appends
-- it, with the RSDP's address and some number as its size.
pub acpi_init_lem :
    (T : Tables) (rsdp : ℕ) (s : State) (ps : Params)
    → IsReadable T rsdp
    → Holds s ps
    → (sz : ℕ) × (acpi_init T rsdp s
        ≡ guarded (is_rsdp T rsdp && is_xsdt T (T.xsdt rsdp)) (register rsdp sz s))
      × Gives (IsRegistered rsdp sz ps) (register rsdp sz s)
unfolding acpi_init add_rsdp is_rsdp is_xsdt
acpi_init_lem T rsdp s ps readable h =
    let xsdt = T.xsdt rsdp in
    let k = register rsdp (T.table_length xsdt) s in
    let xsdt_lem = guarded-and (same_bytes (T.signature xsdt) expect_xsdt_sig) _ _ k (
      guarded-and (leb (T.sizeof_header + 8) (T.table_length xsdt)) _ _ k (
        step-guarded _ (is_summed T.buf xsdt (T.table_length xsdt)) _ _ k
          (check_cksum_lem T.buf xsdt (T.table_length xsdt) readable.bytes readable.xsdt_in)
          (step-last _ (are_fine T xsdt) k (process_tables_lem T xsdt)))) in
    let accepted = guarded (is_xsdt T xsdt) k in
    let rsdp_lem = guarded-and (same_bytes (T.rsdp_signature rsdp) expect_rsdp_sig) _ _ accepted (
      guarded-and (leb 2 (T.revision rsdp)) _ _ accepted (
        guarded-and (leb T.sizeof_xsdp (T.rsdp_length rsdp)) _ _ accepted (
          step-guarded _ (is_summed T.buf rsdp T.offsetof_length) _ _ accepted
            (check_cksum_lem T.buf rsdp T.offsetof_length readable.bytes readable.first)
            (step-last _ (is_summed T.buf rsdp (T.rsdp_length rsdp)) accepted
              (check_cksum_lem T.buf rsdp (T.rsdp_length rsdp) readable.bytes readable.whole))))) in
    (
      T.table_length xsdt,
      ap (λ (rest : Outcome State). acpi_init_with T rsdp rest) xsdt_lem
          ∙ rsdp_lem
          ∙ guarded-both (is_rsdp T rsdp) (is_xsdt T xsdt) k,
      register-IsRegistered rsdp (T.table_length xsdt) s ps h,
    )
