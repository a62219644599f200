-- ===== src/Op.antt =====
-- The operations that src/crdt.js logs and ships between peers, as src/store.js applies them.
use objy.Common.{ℕ, Bool, true, false, Option, [], if◌then◌else◌}
use objy.Common.Text.{Text}
use objy.Common.Dict.{Dict}
use objy.Clock.{Ts}
use objy.Collection.{without_id}
use objy.Collection.Version.{Version, live, dead}

pub data Kind : Type 0 where
  touch put_obj del_obj : Kind

pub record Op (A : Type 0) : Type 0 where
  pub kind : Kind
  pub db : Text
  pub coll : Text
  pub id : Text
  pub value : Dict A
  pub ts : Ts
  pub shard : Option Text
  pub from : Text
  pub seq : ℕ

abbrev pub is_delete : Kind → Bool
is_delete del_obj = true
is_delete _ = false

abbrev pub kind_value {ℓ} : {A : Type ℓ} → Kind → Dict A → Dict A
kind_value touch value = []
kind_value put_obj value = value
kind_value del_obj value = value

-- `op.kind === "touch" ? {} : op.value || {}`
unfoldable pub op_value : {A : Type 0} → Op A → Dict A
op_value op = kind_value op.kind op.value

-- what an operation writes, seen from outside
unfoldable pub written : {A : Type 0} → Op A → Version A
unfolding op_value
written op = if is_delete op.kind then dead op.ts else live op.ts (without_id (op_value op))
