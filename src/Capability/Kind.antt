-- ===== src/Capability/Kind.antt =====
-- CapabilityKind of internal/capability/model.go.
use skillex.Prelude.{Text, codes}

abbrev pub tool : Text
tool = codes "tool"

abbrev pub prompt : Text
prompt = codes "prompt"

abbrev pub resource_template : Text
resource_template = codes "resource-template"

abbrev pub server : Text
server = codes "server"
