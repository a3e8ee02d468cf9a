-- ===== src/Worker/Identity.antt =====
-- What the checks of worker/lease/src/auth.mjs confirm of a token, and the name that an agent gets.
use Prim.Native.String.{◌++◌}
use front_desk_scheduler.Base.{
  ℕ, ◌≡◌, refl, sym, ap, ◌≢◌, any, List, ◌==◌, to_lower, same_text→≡, Bool, ◌∙◌, ◌⊎◌, inl, inr,
  String, true, false, Option, none, some, [], ◌∷◌, ◌=ₛ◌, =ₛ_iff, All, Text, codes, arith,
  Bool-cases, Result, ok, err,
}
use front_desk_scheduler.Worker.Auth.{
  Github, UserAnswer, login, no_user, RepoAnswer, permissions, unreadable, InstallationAnswer,
  repositories, no_installation, is_repo, judge, judge_push, judge_installation, Alias, no_alias,
  other_alias, alias, Github, AuthFault, identify, namespace_agent,
}

-- The name is the login that GitHub gives the token, and the token may push to the repository,
-- maintain it or administer it.
abbrev pub IsPusher : Github → Text → String → Type 0
IsPusher g token name =
    (g.user token ≡ login (some name))
    × (name ≢ "")
    × (push : Bool) × (maintain : Bool) × (admin : Bool) × (g.repo token
        ≡ permissions push maintain admin)
    × ((push ≡ true) ⊎ ((maintain ≡ true) ⊎ (admin ≡ true)))

-- One of the names is the repository's, in whichever case.
abbrev pub HasRepo : String → List (Option String) → Type 0
HasRepo repo [] = ⊥
HasRepo repo (n ∷ ns) =
    ((m : String) × (n ≡ some m) × (to_lower (codes m) ≡ to_lower (codes repo))) ⊎ HasRepo repo ns

-- The name is `gha`, GitHub knows no user for the token, and the token's installation has the
-- repository.
abbrev pub IsInstalled : String → Github → Text → String → Type 0
IsInstalled repo g token name =
    (name ≡ "gha")
    × (status : ℕ) × (g.user token ≡ no_user status)
    × (names : List (Option String)) × (g.installation token ≡ repositories names)
    × HasRepo repo names

abbrev pub ConfirmsAs : String → Github → Text → Result AuthFault String → Type 0
ConfirmsAs repo g token (err e) = Unit
ConfirmsAs repo g token (ok name) = IsPusher g token name ⊎ IsInstalled repo g token name

any-HasRepo :
    (repo : String) (ns : List (Option String)) → any (is_repo repo) ns ≡ true → HasRepo repo ns
any-HasRepo repo [] h = ground (arith, h)
any-HasRepo repo (none ∷ ns) h = inr (any-HasRepo repo ns h)
any-HasRepo repo (some m ∷ ns) h = elim (Bool-cases (is_repo repo (some m))) [
  | inl e ↦ inl (m, refl, same_text→≡ (to_lower (codes m)) (to_lower (codes repo)) e)
  | inr e ↦ inr (any-HasRepo repo ns (sym (rw e refl) ∙ h))
]

pub identify-Confirms :
    (repo : String) (g : Github) (token : Text) → ConfirmsAs repo g token (identify repo g token)
unfolding identify
identify-Confirms repo g token = user (g.user token) refl
  where
    installed :
        (st : ℕ) (i : InstallationAnswer)
        → g.user token ≡ no_user st
        → g.installation token ≡ i
        → ConfirmsAs repo g token (judge_installation repo st i)
    installed st (no_installation st1) e f = tt
    installed st (repositories names) e f = elim (Bool-cases (any (is_repo repo) names)) [
      | inl h ↦ rw h (inr (refl, st, e, names, f, any-HasRepo repo names h))
      | inr h ↦ rw h tt
    ]

    pushes :
        (name : String) (r : RepoAnswer)
        → g.user token ≡ login (some name)
        → name ≢ ""
        → g.repo token ≡ r
        → ConfirmsAs repo g token (judge_push name r)
    pushes name (unreadable st) e n f = tt
    pushes name (permissions true m a) e n f = inl (e, n, true, m, a, f, inl refl)
    pushes name (permissions false true a) e n f = inl (e, n, false, true, a, f, inr (inl refl))
    pushes name (permissions false false true) e n f =
        inl (e, n, false, false, true, f, inr (inr refl))
    pushes name (permissions false false false) e n f = tt

    user :
        (u : UserAnswer)
        → g.user token ≡ u
        → ConfirmsAs repo g token (judge repo u (g.repo token) (g.installation token))
    user (login none) e = tt
    user (login (some name)) e = elim (Bool-cases (name =ₛ "")) [
      | inl h ↦ rw h tt
      | inr h ↦ rw h (pushes name (g.repo token) e (not_empty h) refl)
    ]
      where
        not_empty : (name =ₛ "") ≡ false → name ≢ ""
        not_empty h f = let k = (=ₛ_iff name "").1 f in ground (arith, h, k)
    user (no_user st) e = installed st (g.installation token) e refl

-- The agent is the identity itself, where the body names no alias, and the alias behind the identity
-- and a slash, where it names one.
abbrev pub IsAgentOf : String → Alias → String → Type 0
IsAgentOf identity no_alias who = who ≡ identity
IsAgentOf identity other_alias who = ⊥
IsAgentOf identity (alias a) who =
    ((a ≡ "") × (who ≡ identity))
    ⊎ ((a ≢ "") × All (λ c. c ≢ b'/') (codes a) × (who ≡ identity ++ ("/" ++ a)))

no_slash : (cs : Text) → any (λ c. c == b'/') cs ≡ false → All (λ c. c ≢ b'/') cs
no_slash [] h = tt
no_slash (c ∷ cs) h = elim (Bool-cases (c == b'/')) [
  | inl e ↦ let f : true ≡ false = sym (rw e refl) ∙ h in ground (arith, f)
  | inr e ↦ ((λ f. ground (arith, e, f)), no_slash cs (sym (rw e refl) ∙ h))
]

abbrev from_option : String → Option String → String
from_option d none = d
from_option d (some t) = t

pub namespace_agent-IsAgentOf :
    (identity : String) (a : Alias) (who : String)
    → namespace_agent identity a ≡ some who
    → IsAgentOf identity a who
unfolding namespace_agent
namespace_agent-IsAgentOf identity no_alias who h = sym (ap (from_option identity) h)
namespace_agent-IsAgentOf identity other_alias who h = ground (arith, h)
namespace_agent-IsAgentOf identity (alias a) who h = elim (Bool-cases (a =ₛ "")) [
  | inl e ↦
      let f : some identity ≡ some who = sym (rw e refl) ∙ h in
      inl ((=ₛ_iff a "").0 e, sym (ap (from_option identity) f))
  | inr e ↦ elim (Bool-cases (any (λ c. c == b'/') (codes a))) [
    | inl f ↦ let g : none ≡ some who = sym (rw (e, f) refl) ∙ h in ground (arith, g)
    | inr f ↦
        let g : some (identity ++ ("/" ++ a)) ≡ some who = sym (rw (e, f) refl) ∙ h in
        inr (
          (λ n. let k = (=ₛ_iff a "").1 n in ground (arith, e, k)),
          no_slash (codes a) f,
          sym (ap (from_option identity) g),
        )
  ]
]
