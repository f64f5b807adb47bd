-- ===== src/Constants.antt =====
-- internal/pkg/constants/constants.go, and the delays of internal/controller/helmapp.go in
-- nanoseconds.
use pluma_opeartor.Base.{ℕ, ◌*◌, String}

abbrev pub helm_app_finalizer : String
helm_app_finalizer = "helmapp.pluma.io/finalizer"

abbrev pub iop_finalizer : String
iop_finalizer = "iop.pluma.io/finalizer"

abbrev pub managed_label : String
managed_label = "pluma.io/managed"

abbrev pub managed_label_value : String
managed_label_value = "pluma-operator"

abbrev pub second : ℕ
second = 1_000_000_000

abbrev pub failed_after : ℕ
failed_after = 30 * second

abbrev pub server_failed_after : ℕ
server_failed_after = 60 * second
