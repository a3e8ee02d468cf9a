-- ===== src/Capability.antt =====
-- src/capability.ts: what an actor holds, and what an item needs that it lacks.
pub mod Executable
use front_desk_scheduler.Base.{
  String, Bool, true, false, ◌&&◌, ◌||◌, not, Option, none, some, List, [], ◌∷◌, ◌++◌, map, filterb,
  length, ◌==◌, ◌=ₛ◌, if◌then◌else◌, Text, codes, trim, has_text,
}

-- The closed vocabulary, spelled as the items spell it.
abbrev pub capabilities : List String
capabilities = "gh" ∷ "github-api" ∷ "dolt" ∷ "deno" ∷ []

unfoldable pub is_capability : String → Bool
unfolding has_text
is_capability s = has_text s capabilities

abbrev pub proxy_token_sentinel : Text
proxy_token_sentinel = codes "proxy-injected"

-- The reason for each capability, held or not.
pub data Reason : Type 0 where
  token_unset token_is_sentinel token_present on_path no_binary : Reason
  provisioned_at : String → Reason

pub record ActorCapabilities : Type 0 where
  pub held : List String
  pub because : List (String × Reason)

pub record ResolvedBinary : Type 0 where
  pub path : String
  pub on_path : Bool

-- The two variables that the credential is read from, and the search for a binary.
pub record ProbeEnv : Type 0 where
  pub gh_token : Option String
  pub github_token : Option String
  pub resolve_binary : String → Option ResolvedBinary

abbrev pub or_else : Option String → Option String → String
or_else (some s) o = s
or_else none (some s) = s
or_else none none = ""

abbrev pub same_text : Text → Text → Bool
same_text [] [] = true
same_text (c ∷ cs) (d ∷ ds) = c == d && same_text cs ds
same_text _ _ = false

abbrev pub raw_token : ProbeEnv → Text
unfolding trim
raw_token env = trim (codes (or_else env.gh_token env.github_token))

abbrev pub credential_of : Text → Bool × Reason
credential_of [] = (false, token_unset)
credential_of (c ∷ cs) =
    if same_text (c ∷ cs) proxy_token_sentinel
    then (false, token_is_sentinel)
    else (true, token_present)

unfoldable pub github_credential : ProbeEnv → Bool × Reason
github_credential env = credential_of (raw_token env)

abbrev pub is_found : Option ResolvedBinary → Bool
is_found none = false
is_found (some b) = true

abbrev pub binary_reason : Option ResolvedBinary → Reason
binary_reason none = no_binary
binary_reason (some b) = if b.on_path then on_path else provisioned_at b.path

-- The loop over the three binaries, then the credential.
unfoldable pub probe_binaries :
    (String → Option ResolvedBinary) → List String → ActorCapabilities → ActorCapabilities
probe_binaries resolve [] actor = actor
probe_binaries resolve (bin ∷ bins) actor = probe_binaries resolve bins (record {
  held = if is_found (resolve bin) then actor.held ++ (bin ∷ []) else actor.held;
  because = actor.because ++ ((bin, binary_reason (resolve bin)) ∷ []);
})

abbrev pub with_credential : Bool × Reason → ActorCapabilities → ActorCapabilities
with_credential (ok, because) actor = record {
  held = if ok then actor.held ++ ("github-api" ∷ []) else actor.held;
  because = actor.because ++ (("github-api", because) ∷ []);
}

unfoldable pub probe_actor : ProbeEnv → ActorCapabilities
unfolding probe_binaries
probe_actor probe = with_credential (github_credential probe) (
    probe_binaries probe.resolve_binary ("gh" ∷ "dolt" ∷ "deno" ∷ [])
      (record { held = []; because = [] }))

unfoldable pub missing_for : List String → ActorCapabilities → List String
missing_for needs actor = filterb (λ n. is_capability n && not (has_text n actor.held)) needs

unfoldable pub is_executable_by : List String → ActorCapabilities → Bool
is_executable_by needs actor = length (missing_for needs actor) == 0
