-- ===== src/Samples/Signing.antt =====
-- A platform whose signatures are the key before the text, for the tests.
use hlinor_agent_registry.Prelude.{
  ℕ, ◌*◌, true, Option, none, some, [], ◌∷◌, ◌++◌, if◌then◌else◌, length, million, Text, codes,
  text_eq, Value, bool, str, arr, obj, Items, nil, cons, Fields, end, field, pos,
}
use hlinor_agent_registry.Policies.Clock.{Stamp}
use hlinor_agent_registry.Tokens.{Platform}
use hlinor_agent_registry.ReplayGuard.{ReplayStore, Surroundings}
use hlinor_agent_registry.Approval.{TrustedKey, Moment}
use hlinor_agent_registry.Approval.Signing.{Signer, Grant}

-- Every text with its fields in their order.
unfoldable mutual
  pub written : Value → Text
  written (str s) = b'"' ∷ (s ++ codes "\"")
  written (arr vs) = b'[' ∷ written_items vs
  written (obj fs) = b'{' ∷ written_fields fs
  written (bool b) = if b then codes "true" else codes "false"
  written v = codes "null"

  pub written_items : Items → Text
  written_items nil = codes "]"
  written_items (cons v vs) = written v ++ b',' ∷ written_items vs

  pub written_fields : Fields → Text
  written_fields end = codes "}"
  written_fields (field k v fs) = k ++ b':' ∷ (written v ++ b',' ∷ written_fields fs)

-- So many seconds as the text has characters.
abbrev pub time_of : Text → Option Stamp
time_of s = some (record { instant = length {A = ℕ} s * million; aware = true })

abbrev pub plain_platform : Platform Text
plain_platform = record {
  fromisoformat = time_of;
  canonical = λ v. some (written v);
  decode = λ (s : Text). elim s [ [] ↦ none | c ∷ rest ↦ some rest ];
  verify = λ key bytes text. text_eq bytes (key ++ text);
}

abbrev pub plain_signer : Signer
plain_signer = record { sign = λ text. codes "lead" ++ text; encode = λ bytes. b'=' ∷ bytes }

abbrev pub lead_key : TrustedKey Text
lead_key = record { public_key = codes "lead"; issuer = some (codes "desk") }

abbrev pub lead_keys : Text → Option (TrustedKey Text)
lead_keys key_id = some lead_key

abbrev pub grant : Grant
grant = record {
  key_id = codes "k";
  issuer = codes "desk";
  subject_agent_id = codes "bot";
  action = codes "send";
  arguments_digest = codes "d";
  issued_at = codes "t";
  expires_at = codes "ttttt";
  nonce = codes "n";
  resource = some (codes "mail");
  tool_id = none;
  session_id = none;
  tenant_id = none;
  project_id = some (codes "p");
  workspace_id = some (codes "w");
  request_digest = none;
  approver_role = none;
  token_id = some (codes "id");
  single_use = true;
}

abbrev pub moment_at : ℕ → Moment
moment_at seconds = record {
  current_time = none;
  clock = seconds * million;
  clock_skew_seconds = pos 60;
}

abbrev pub empty_store : ReplayStore
empty_store = record { claimed = []; revoked = [] }

abbrev pub working_at : ℕ → Surroundings
working_at seconds = record { now = seconds * million; available = true }
