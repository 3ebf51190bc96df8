-- ===== src/Vpages/SamePage.antt =====
-- The addresses of one page are translated together.
use rv_mini_os.Prelude.{
  ℕ, ◌+◌, ◌/◌, ◌%◌, ◌^◌, ◌<◌, ◌≡◌, ap, none, some, Option, ◌&&◌, arith, Bool-cases, Option-cases,
  some-inj, none-ne-some, inl, inr,
}
use rv_mini_os.Err.{ok, err}
use rv_mini_os.Pages.{Pages}
use rv_mini_os.Vpages.{
  Call, has_flag, pte_w, pte_cow, get_va_vpn, walk_from, walk_leaf, vpage_handle_cow,
}
use rv_mini_os.Vpages.Copy.{get_pa_from_va, check_flags, after_cow}

walk_leaf-same_page :
    (root va i : ℕ) (m : Pages)
    → va % 4096 + i < 4096
    → walk_leaf root (va + i) m ≡ walk_leaf root va m
unfolding walk_leaf walk_from get_va_vpn
walk_leaf-same_page root va i m h =
    let top : (va + i) / 2 ^ 30 ≡ va / 2 ^ 30 = omega arith in
    let middle : (va + i) / 2 ^ 21 ≡ va / 2 ^ 21 = omega arith in
    let bottom : (va + i) / 2 ^ 12 ≡ va / 2 ^ 12 = omega arith in rw (top, middle, bottom)

handle_cow-same_page :
    (root va i : ℕ) (m : Pages)
    → va % 4096 + i < 4096
    → vpage_handle_cow root (va + i) m ≡ vpage_handle_cow root va m
unfolding vpage_handle_cow
handle_cow-same_page root va i m h = rw (vpage_handle_cow, walk_leaf-same_page root va i m h)

check_flags-same_page :
    (table entry va i needed pa : ℕ) (m m1 : Pages)
    → va % 4096 + i < 4096
    → check_flags table entry va needed m ≡ (some pa, m1)
    → check_flags table entry (va + i) needed m ≡ (some (pa + i), m1)
check_flags-same_page table entry va i needed pa m m1 h e =
    let offset : (va + i) % 4096 ≡ va % 4096 + i = omega arith in ground arith

after_cow-same_page :
    (table entry va i needed pa : ℕ) (c : Call) (m1 : Pages)
    → va % 4096 + i < 4096
    → after_cow table entry va needed c ≡ some (some pa, m1)
    → after_cow table entry (va + i) needed c ≡ some (some (pa + i), m1)
after_cow-same_page table entry va i needed pa none m1 h e = cc
after_cow-same_page table entry va i needed pa (some (err x, m)) m1 h e =
    absurd (none-ne-some (ap (λ (p : Option ℕ × Pages). p.0) (some-inj e)))
after_cow-same_page table entry va i needed pa (some (ok n, m)) m1 h e =
    ap some (check_flags-same_page table entry va i needed pa m m1 h (some-inj e))

-- Where an address of a page is translated, those behind it in the page are translated in step.
pub get_pa_from_va-same_page :
    (root va i needed pa : ℕ) (m m1 : Pages)
    → va % 4096 + i < 4096
    → get_pa_from_va root va needed m ≡ some (some pa, m1)
    → get_pa_from_va root (va + i) needed m ≡ some (some (pa + i), m1)
unfolding get_pa_from_va
get_pa_from_va-same_page root va i needed pa m m1 h e = elim (Option-cases (walk_leaf root va m)) [
  | inl unmapped ↦ absurd (
      none-ne-some
        (ap (λ (p : Option ℕ × Pages). p.0) (some-inj (rw (unmapped, get_pa_from_va) at e))))
  | inr ((table, entry), found) ↦
      elim (Bool-cases (has_flag needed pte_w && has_flag (m.content table entry) pte_cow)) [
        | inl cow ↦
            rw
              (
                walk_leaf-same_page root va i m h,
                found,
                get_pa_from_va,
                cow,
                handle_cow-same_page root va i m h,
              )
              (after_cow-same_page table entry va i needed pa (vpage_handle_cow root va m) m1 h
                (rw (found, get_pa_from_va, cow) at e))
        | inr plain ↦
            rw (walk_leaf-same_page root va i m h, found, get_pa_from_va, plain)
              (ap some (
                check_flags-same_page table entry va i needed pa m m1 h
                  (some-inj (rw (found, get_pa_from_va, plain) at e))))
      ]
]
