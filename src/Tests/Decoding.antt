-- ===== src/Tests/Decoding.antt =====
-- Enumerations as they are read.
use brokr.Common.{String, ◌==◌, if◌then◌else◌}
use brokr.Model.Kinds.{trigger_name, kind_name, action_type_name, op_name}
use brokr.Model.Decode.{unmarshal_trigger, unmarshal_kind, unmarshal_action_type, unmarshal_op}
use brokr.Model.Decode.Canonical.{IsCanonical, unmarshal-IsCanonical}

abbrev upper : String → String
upper s = if s == "user" then "USER" else s

unmarshal-IsCanonical_example :
    IsCanonical upper trigger_name (unmarshal_trigger upper)
    × IsCanonical upper kind_name (unmarshal_kind upper)
    × IsCanonical upper action_type_name (unmarshal_action_type upper)
    × IsCanonical upper op_name (unmarshal_op upper)
unmarshal-IsCanonical_example = unmarshal-IsCanonical upper
