-- ===== src/Resources/Constants.antt =====
-- internal/constants: names that several parts of the operator share.
use rhbk_operator.Prelude.{String}

abbrev pub rhbk_container_name : String
rhbk_container_name = "rhbk"

abbrev pub trusted_ca_volume : String
trusted_ca_volume = "trusted-ca"

abbrev pub trusted_ca_volume_mount_path : String
trusted_ca_volume_mount_path = "conf/truststores"

abbrev pub rhbk_watched_resource_label : String
rhbk_watched_resource_label = "sso.stakater.com/watched"

abbrev pub rhbk_import_owner_label : String
rhbk_import_owner_label = "realm.stakater.com/owner"

abbrev pub rhbk_import_namespace_label : String
rhbk_import_namespace_label = "realm.stakater.com/namepsace"
