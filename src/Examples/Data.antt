-- ===== src/Examples/Data.antt =====
-- The rules and drafts that the examples share.
use jumpway.Prelude.{
  ℕ, Bool, true, false, ◌||◌, List, [], ◌∷◌, Option, none, some, Text, codes, any, is_empty, ltb,
  read_decimal, if◌then◌else◌,
}
use jumpway.Wire.{WayNode, Listen, Forward, Rule}
use jumpway.Draft.{forward, address, ProtocolType, http, ss, ProtocolDraft, RuleDraft}
use jumpway.ReadRule.Errors.{ReadContext}

-- `Number(s)` of a text of digits; the other texts are not numbers here.
abbrev pub digits_only : Text → Option ℕ
digits_only s =
    if is_empty s || any (λ c. ltb c b'0' || ltb b'9' c) s then none else some (read_decimal s)

abbrev pub no_listen : Text → ℕ → Listen
no_listen host port = record {
  host = host;
  port = port;
  virtual = none;
  way = none;
  username = none;
  password = none;
  cipher = none;
  protocols = none;
}

abbrev pub plain_forward : Forward
plain_forward = record { host = none; port = none; virtual = none; way = none }

-- A proxy on 127.0.0.1:8080, and a rule that listens on the channel `lab`.
abbrev pub web_rule : Rule
web_rule = record {
  name = codes "web";
  disabled = none;
  listen = no_listen (codes "127.0.0.1") 8080;
  forward = plain_forward;
}

abbrev pub lab_rule : Rule
lab_rule = record {
  name = codes "lab";
  disabled = none;
  listen = record (no_listen [] 0) {
    virtual = some (codes "lab");
    way =
        some
          (WayNode.bare (codes "ssh://a|ssh://b") ∷ WayNode.lb (some (codes "ssh://c" ∷ [])) ∷ []);
  };
  forward = record plain_forward { host = some (codes "10.0.0.1"); port = some 22 };
}

abbrev pub rules : List Rule
rules = web_rule ∷ lab_rule ∷ []

abbrev pub context : ReadContext
context = record {
  others = rules;
  self = none;
  web_ui = some (record { host = codes "127.0.0.1"; port = 9000 });
}

abbrev pub row : ProtocolType → Bool → ProtocolDraft
row type enabled = record {
  type = type;
  enabled = enabled;
  custom = false;
  username = [];
  password = [];
  cipher = [];
}

-- A forward of port 2222 through one hop to 10.0.0.2:22.
abbrev pub tunnel_draft : RuleDraft
tunnel_draft = record {
  name = codes " tunnel";
  enabled = true;
  listen = record {
    kind = address;
    host = [];
    port = codes "2222";
    virtual = [];
    username = [];
    password = [];
    protocols = row http true ∷ row ss false ∷ [];
    way = [];
  };
  mode = forward;
  target = record { kind = address; host = codes "10.0.0.2"; port = codes "22"; virtual = [] };
  forward_way = record { id = 1; urls = record { id = 2; value = codes "ssh://jump" } ∷ [] } ∷ [];
}

-- The same on a port that `web` has.
abbrev pub clashing_draft : RuleDraft
clashing_draft = record tunnel_draft {
  listen = record (tunnel_draft.listen) { port = codes "8080" };
}
