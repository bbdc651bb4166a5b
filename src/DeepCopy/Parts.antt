-- ===== src/DeepCopy/Parts.antt =====
-- Each `DeepCopyInto` makes a deep copy.
use rhbk_operator.Prelude.{
  String, Bool, arith, ◌≡◌, refl, ap, ◌∙◌, List, [], ◌∷◌, ◌==◌, Option, some, if◌then◌else◌,
}
use rhbk_operator.Prelude.Maps.{Map, lookup, lookup-insert}
use rhbk_operator.Kube.Meta.{Int32}
use rhbk_operator.Api.Types.{NetworkConfig, RealmSizing, KeycloakInstance}
use rhbk_operator.DeepCopy.Deep.{
  IsDeep, plain-IsDeep, along-IsDeep, both-IsDeep, each-IsDeep, new_copy-IsDeep,
}
use rhbk_operator.DeepCopy.Structs.{Foreign, TypeMeta}
use rhbk_operator.DeepCopy.Storages.{
  selectors, string_slices, option_var_slices, provider_slices, condition_slices, keycloak_slices,
  import_slices, maps, int32s, references, network_configs, sizings, databases,
}
use rhbk_operator.DeepCopy.Into.{
  Copiers, copy_entries, refill, admin_user_deep_copy_into, conditions_deep_copy_into,
  features_deep_copy_into, keycloak_deep_copy_into, keycloak_import_deep_copy_into,
  keycloak_import_list_deep_copy_into, keycloak_import_spec_deep_copy_into,
  keycloak_import_status_deep_copy_into, keycloak_list_deep_copy_into, keycloak_spec_deep_copy_into,
  keycloak_status_deep_copy_into, postgres_database_deep_copy_into, provider_deep_copy_into,
  secret_option_deep_copy_into, secret_option_var_deep_copy_into, versioned_status_deep_copy_into,
}
use rhbk_operator.DeepCopy.Fields.{
  secret_option_fields, secret_option_var_fields, provider_fields, admin_user_fields,
  features_fields, postgres_database_fields, keycloak_spec_fields, conditions_fields,
  keycloak_status_fields, versioned_status_fields, keycloak_import_spec_fields,
  keycloak_import_status_fields, keycloak_fields, keycloak_import_fields, keycloak_list_fields,
  keycloak_import_list_fields,
}
use rhbk_operator.DeepCopy.Shapes.{
  ForeignShapes, AreDeep, entries, secret_option_shape, secret_option_var_shape, provider_shape,
  admin_user_shape, features_shape, postgres_database_shape, keycloak_spec_shape, conditions_shape,
  keycloak_status_shape, versioned_status_shape, keycloak_import_spec_shape,
  keycloak_import_status_shape, keycloak_shape, keycloak_import_shape, keycloak_list_shape,
  keycloak_import_list_shape,
}

lookup-copy_entries : (key : String) (m : Map String) → lookup key (copy_entries m) ≡ lookup key m
unfolding lookup copy_entries
lookup-copy_entries key [] = refl
lookup-copy_entries key ((own, value) ∷ rest) =
    lookup-insert own key value (copy_entries rest)
    ∙ ap (λ (later : Option String). if own == key then some value else later)
        (lookup-copy_entries key rest)

refill-IsDeep : {C : Type 0} → IsDeep (entries {C = C}) refill
refill-IsDeep = record {
  fixed = record {
    wider = λ low high below above m a inside lower upper. tt;
    stays = λ low high m later a inside agree. tt;
    same = λ low high m later a inside agree. refl;
  };
  copies = record {
    copied =
        λ a m inside. (omega arith, λ p from to. refl, tt, λ i key. lookup-copy_entries key a i);
  };
}

module _ {F : Foreign} {shapes : ForeignShapes F} {libs : Copiers F}
    (laws : AreDeep shapes libs) where
  pub secret_option_deep_copy_into-IsDeep :
      IsDeep (secret_option_shape shapes) (secret_option_deep_copy_into libs)
  unfolding secret_option_deep_copy_into
  secret_option_deep_copy_into-IsDeep =
      along-IsDeep secret_option_fields (secret_option_deep_copy_into libs) (λ a m. refl)
        (both-IsDeep (plain-IsDeep {A = String}) (new_copy-IsDeep laws.selector (selectors F)))

  pub secret_option_var_deep_copy_into-IsDeep :
      IsDeep (secret_option_var_shape shapes) (secret_option_var_deep_copy_into libs)
  unfolding secret_option_var_deep_copy_into
  secret_option_var_deep_copy_into-IsDeep =
      along-IsDeep secret_option_var_fields (secret_option_var_deep_copy_into libs) (λ a m. refl)
        (both-IsDeep (plain-IsDeep {A = String})
          (both-IsDeep (plain-IsDeep {A = String}) (new_copy-IsDeep laws.selector (selectors F))))

  pub provider_deep_copy_into-IsDeep : IsDeep (provider_shape shapes) (provider_deep_copy_into libs)
  unfolding provider_deep_copy_into
  provider_deep_copy_into-IsDeep =
      along-IsDeep provider_fields (provider_deep_copy_into libs) (λ a m. refl)
        (both-IsDeep (plain-IsDeep {A = String}) secret_option_deep_copy_into-IsDeep)

  pub admin_user_deep_copy_into-IsDeep :
      IsDeep (admin_user_shape shapes) (admin_user_deep_copy_into libs)
  unfolding admin_user_deep_copy_into
  admin_user_deep_copy_into-IsDeep =
      along-IsDeep admin_user_fields (admin_user_deep_copy_into libs) (λ a m. refl)
        (both-IsDeep secret_option_deep_copy_into-IsDeep secret_option_deep_copy_into-IsDeep)

  pub features_deep_copy_into-IsDeep : IsDeep (features_shape shapes) (features_deep_copy_into)
  unfolding features_deep_copy_into
  features_deep_copy_into-IsDeep =
      along-IsDeep features_fields (features_deep_copy_into) (λ a m. refl)
        (both-IsDeep (new_copy-IsDeep (plain-IsDeep {A = List String}) (string_slices F))
          (new_copy-IsDeep (plain-IsDeep {A = List String}) (string_slices F)))

  pub postgres_database_deep_copy_into-IsDeep :
      IsDeep (postgres_database_shape shapes) (postgres_database_deep_copy_into libs)
  unfolding postgres_database_deep_copy_into
  postgres_database_deep_copy_into-IsDeep =
      along-IsDeep postgres_database_fields (postgres_database_deep_copy_into libs) (λ a m. refl)
        (both-IsDeep secret_option_deep_copy_into-IsDeep (
          both-IsDeep secret_option_deep_copy_into-IsDeep
            (both-IsDeep secret_option_deep_copy_into-IsDeep secret_option_deep_copy_into-IsDeep)))

  pub keycloak_spec_deep_copy_into-IsDeep :
      IsDeep (keycloak_spec_shape shapes) (keycloak_spec_deep_copy_into libs)
  unfolding keycloak_spec_deep_copy_into
  keycloak_spec_deep_copy_into-IsDeep =
      along-IsDeep keycloak_spec_fields (keycloak_spec_deep_copy_into libs) (λ a m. refl)
        (both-IsDeep (new_copy-IsDeep postgres_database_deep_copy_into-IsDeep (databases F)) (
          both-IsDeep
            (new_copy-IsDeep (each-IsDeep secret_option_var_deep_copy_into-IsDeep)
              (option_var_slices F))
            (both-IsDeep (new_copy-IsDeep (plain-IsDeep {A = Int32}) (int32s F)) (
              both-IsDeep (new_copy-IsDeep (plain-IsDeep {A = String}) (references F)) (
                both-IsDeep admin_user_deep_copy_into-IsDeep (
                  both-IsDeep
                    (new_copy-IsDeep (each-IsDeep provider_deep_copy_into-IsDeep)
                      (provider_slices F))
                    (both-IsDeep
                      (new_copy-IsDeep (plain-IsDeep {A = NetworkConfig}) (network_configs F))
                      (new_copy-IsDeep (plain-IsDeep {A = RealmSizing}) (sizings F)))))))))

  pub conditions_deep_copy_into-IsDeep :
      IsDeep (conditions_shape shapes) (conditions_deep_copy_into libs)
  unfolding conditions_deep_copy_into
  conditions_deep_copy_into-IsDeep =
      along-IsDeep conditions_fields (conditions_deep_copy_into libs) (λ a m. refl)
        (new_copy-IsDeep (each-IsDeep laws.condition) (condition_slices F))

  pub keycloak_status_deep_copy_into-IsDeep :
      IsDeep (keycloak_status_shape shapes) (keycloak_status_deep_copy_into libs)
  unfolding keycloak_status_deep_copy_into
  keycloak_status_deep_copy_into-IsDeep =
      along-IsDeep keycloak_status_fields (keycloak_status_deep_copy_into libs) (λ a m. refl)
        conditions_deep_copy_into-IsDeep

  pub versioned_status_deep_copy_into-IsDeep :
      IsDeep (versioned_status_shape shapes) (versioned_status_deep_copy_into)
  unfolding versioned_status_deep_copy_into
  versioned_status_deep_copy_into-IsDeep =
      along-IsDeep versioned_status_fields (versioned_status_deep_copy_into) (λ a m. refl)
        (new_copy-IsDeep refill-IsDeep (maps F))

  pub keycloak_import_spec_deep_copy_into-IsDeep :
      IsDeep (keycloak_import_spec_shape shapes) (keycloak_import_spec_deep_copy_into libs)
  unfolding keycloak_import_spec_deep_copy_into
  keycloak_import_spec_deep_copy_into-IsDeep =
      along-IsDeep keycloak_import_spec_fields (keycloak_import_spec_deep_copy_into libs)
        (λ a m. refl)
        (both-IsDeep (plain-IsDeep {A = KeycloakInstance}) (
          both-IsDeep (plain-IsDeep {A = String}) (
            both-IsDeep
              (new_copy-IsDeep (each-IsDeep secret_option_var_deep_copy_into-IsDeep)
                (option_var_slices F))
              (plain-IsDeep {A = Bool}))))

  pub keycloak_import_status_deep_copy_into-IsDeep :
      IsDeep (keycloak_import_status_shape shapes) (keycloak_import_status_deep_copy_into libs)
  unfolding keycloak_import_status_deep_copy_into
  keycloak_import_status_deep_copy_into-IsDeep =
      along-IsDeep keycloak_import_status_fields (keycloak_import_status_deep_copy_into libs)
        (λ a m. refl)
        (both-IsDeep versioned_status_deep_copy_into-IsDeep conditions_deep_copy_into-IsDeep)

  pub keycloak_deep_copy_into-IsDeep : IsDeep (keycloak_shape shapes) (keycloak_deep_copy_into libs)
  unfolding keycloak_deep_copy_into
  keycloak_deep_copy_into-IsDeep =
      along-IsDeep keycloak_fields (keycloak_deep_copy_into libs) (λ a m. refl)
        (both-IsDeep (plain-IsDeep {A = TypeMeta}) (
          both-IsDeep laws.object_meta (
            both-IsDeep keycloak_spec_deep_copy_into-IsDeep keycloak_status_deep_copy_into-IsDeep)))

  pub keycloak_import_deep_copy_into-IsDeep :
      IsDeep (keycloak_import_shape shapes) (keycloak_import_deep_copy_into libs)
  unfolding keycloak_import_deep_copy_into
  keycloak_import_deep_copy_into-IsDeep =
      along-IsDeep keycloak_import_fields (keycloak_import_deep_copy_into libs) (λ a m. refl)
        (both-IsDeep (plain-IsDeep {A = TypeMeta}) (
          both-IsDeep laws.object_meta (
            both-IsDeep keycloak_import_spec_deep_copy_into-IsDeep
              keycloak_import_status_deep_copy_into-IsDeep)))

  pub keycloak_list_deep_copy_into-IsDeep :
      IsDeep (keycloak_list_shape shapes) (keycloak_list_deep_copy_into libs)
  unfolding keycloak_list_deep_copy_into
  keycloak_list_deep_copy_into-IsDeep =
      along-IsDeep keycloak_list_fields (keycloak_list_deep_copy_into libs) (λ a m. refl)
        (both-IsDeep (plain-IsDeep {A = TypeMeta}) (
          both-IsDeep laws.list_meta
            (new_copy-IsDeep (each-IsDeep keycloak_deep_copy_into-IsDeep) (keycloak_slices F))))

  pub keycloak_import_list_deep_copy_into-IsDeep :
      IsDeep (keycloak_import_list_shape shapes) (keycloak_import_list_deep_copy_into libs)
  unfolding keycloak_import_list_deep_copy_into
  keycloak_import_list_deep_copy_into-IsDeep =
      along-IsDeep keycloak_import_list_fields (keycloak_import_list_deep_copy_into libs)
        (λ a m. refl)
        (both-IsDeep (plain-IsDeep {A = TypeMeta}) (
          both-IsDeep laws.list_meta (
            new_copy-IsDeep (each-IsDeep keycloak_import_deep_copy_into-IsDeep) (import_slices F))))
