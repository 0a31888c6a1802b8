-- ===== src/Normalization/Parts.antt =====
-- `_normalized_subscription` and `_to_out` of normalization.py: each part of the normalized dict is the
-- list of its entries.
use app_suscriptions_back.Prelude.{String, List, [], ◌∷◌, none, some, if◌then◌else◌}
use app_suscriptions_back.Errors.{Result, ok, err, other}
use app_suscriptions_back.Domain.{Value, null, string, object, Fields, Subscription}
use app_suscriptions_back.Normalization.{
  Python, is_truthy, get_field, first_present, dict, custom_fields, detail_level,
}
use app_suscriptions_back.Normalization.Scalars.{
  SubscriptionOut, unit_of, boolish, iso_datetime, status_label, status_group, status_group_label,
  normalize_usage_controls, services_of,
}

module _ (python : Python) where
  open python use {title, to_iso}

  -- the part "identity"
  unfoldable pub identity_part : Fields → List (String × Value)
  unfolding first_present
  identity_part fs =
      ("imei", first_present fs ("imei" ∷ []))
      ∷ ("alias", first_present fs ("alias" ∷ []))
      ∷ ("eid", first_present fs ("eid" ∷ []))
      ∷ ("euiccid", first_present fs ("euiccid" ∷ []))
      ∷ ("sim_profile_id", first_present fs ("sim_profile_id" ∷ []))
      ∷ []

  -- the part "plan"
  unfoldable pub plan_part : Fields → List (String × Value)
  unfolding first_present
  plan_part fs =
      ("name", first_present fs ("product_name" ∷ "rate_plan" ∷ "commercial_group" ∷ []))
      ∷ ("code", first_present fs ("product_code" ∷ []))
      ∷ ("id", first_present fs ("product_id" ∷ []))
      ∷ ("communication_plan", first_present fs ("communication_plan" ∷ []))
      ∷ ("apn", first_present fs ("apn" ∷ []))
      ∷ ("apns", first_present fs ("apn_list" ∷ []))
      ∷ ("started_at", iso_datetime python (first_present fs ("plan_start_date" ∷ [])))
      ∷ ("expires_at", iso_datetime python (first_present fs ("plan_expiration_date" ∷ [])))
      ∷ []

  -- the part "customer"
  unfoldable pub customer_part : Fields → List (String × Value)
  unfolding first_present
  customer_part fs =
      ("name", first_present fs ("client_name" ∷ "end_customer_name" ∷ "customer" ∷ []))
      ∷ ("id", first_present fs ("end_customer_id" ∷ "end_consumer_id" ∷ []))
      ∷ ("company_code", first_present fs ("company_code" ∷ []))
      ∷ ("account_id", first_present fs ("account_id" ∷ []))
      ∷ []

  -- the part "network"
  unfoldable pub network_part : Fields → List (String × Value)
  unfolding first_present
  network_part fs =
      ("operator", first_present fs ("operator" ∷ []))
      ∷ ("country", first_present fs ("country" ∷ []))
      ∷ ("rat_type", first_present fs ("rat_type" ∷ []))
      ∷ ("last_network", first_present fs ("last_network" ∷ []))
      ∷ ("ip_address", first_present fs ("ip_address" ∷ []))
      ∷ ("ipv6_address", first_present fs ("ipv6_address" ∷ []))
      ∷ ("fixed_ip_address", first_present fs ("fixed_ip_address" ∷ "static_ip" ∷ []))
      ∷ ("fixed_ipv6_address", first_present fs ("fixed_ipv6_address" ∷ []))
      ∷ ("static_ips", first_present fs ("static_ips" ∷ []))
      ∷ ("additional_static_ips", first_present fs ("additional_static_ips" ∷ []))
      ∷ ("sgsn_ip", first_present fs ("sgsn_ip" ∷ []))
      ∷ ("ggsn_ip", first_present fs ("ggsn_ip" ∷ []))
      ∷ ("last_traffic_at", iso_datetime python (first_present fs ("last_traffic_date" ∷ [])))
      ∷ ("first_lu_at", iso_datetime python (first_present fs ("first_lu" ∷ [])))
      ∷ ("last_lu_at", iso_datetime python (first_present fs ("last_lu" ∷ [])))
      ∷ ("first_cdr_at", iso_datetime python (first_present fs ("first_cdr" ∷ [])))
      ∷ ("last_cdr_at", iso_datetime python (first_present fs ("last_cdr" ∷ [])))
      ∷ ("gprs_status", first_present fs ("gprs_status" ∷ []))
      ∷ ("ip_status", first_present fs ("ip_status" ∷ []))
      ∷ ("location", first_present fs ("automatic_location" ∷ "manual_location" ∷ []))
      ∷ []

  -- the part "hardware"
  unfoldable pub hardware_part : Fields → List (String × Value)
  unfolding first_present
  hardware_part fs =
      ("sim_model", first_present fs ("sim_model" ∷ []))
      ∷ ("module_manufacturer", first_present fs ("comm_module_manufacturer" ∷ []))
      ∷ ("module_model", first_present fs ("comm_module_model" ∷ []))
      ∷ ("device_id", first_present fs ("device_id" ∷ []))
      ∷ ("modem_id", first_present fs ("modem_id" ∷ []))
      ∷ ("imei_last_changed_at", iso_datetime python (first_present fs ("imei_last_change" ∷ [])))
      ∷ ("shipped_at", iso_datetime python (first_present fs ("date_shipped" ∷ [])))
      ∷ []

  -- the part "services"
  unfoldable pub services_part : Fields → List (String × Value)
  unfolding first_present
  services_part fs =
      ("active", services_of python fs)
      ∷ ("basic", first_present fs ("basic_services" ∷ []))
      ∷ ("supplementary", first_present fs ("supplementary_services" ∷ []))
      ∷ ("data_service", boolish python (first_present fs ("data_service" ∷ [])))
      ∷ ("sms_service", boolish python (first_present fs ("sms_service" ∷ [])))
      ∷ []

  -- the part "limits"
  unfoldable pub limits_part : Fields → List (String × Value)
  unfolding first_present
  limits_part fs =
      ("data", first_present fs ("data_limit_mb" ∷ []))
      ∷ ("data_unit", unit_of (get_field "data_limit_mb" fs))
      ∷ ("sms", first_present fs ("sms_limit" ∷ []))
      ∷ ("daily", normalize_usage_controls python (first_present fs ("consumption_daily" ∷ [])))
      ∷ ("monthly", normalize_usage_controls python (first_present fs ("consumption_monthly" ∷ [])))
      ∷ []

  -- the part "dates"
  unfoldable pub dates_part : Fields → List (String × Value)
  unfolding first_present
  dates_part fs =
      ("added_at", iso_datetime python (first_present fs ("date_added" ∷ [])))
      ∷ ("provisioned_at", iso_datetime python (first_present fs ("provision_date" ∷ [])))
      ∷ []

  -- the last change: the provider's, or else that of the subscription
  abbrev pub last_changed : Subscription → Value
  last_changed sub =
      let changed =
        first_present sub.provider_fields ("last_state_change_date" ∷ "date_updated" ∷ []) in
      if is_truthy changed
      then iso_datetime python changed
      else elim sub.updated_at [ none ↦ null | some instant ↦ string (to_iso instant) ]

  -- the part "status"
  unfoldable pub status_part : Subscription → List (String × Value)
  unfolding status_group_label
  status_part sub =
      ("label", status_label python sub.status)
      ∷ ("group", string (status_group python sub.status))
      ∷ ("group_label", string (status_group_label title (status_group python sub.status)))
      ∷ ("source", string "provider")
      ∷ ("last_changed_at", last_changed sub)
      ∷ []

  -- `_normalized_subscription`
  unfoldable pub normalized_subscription : Subscription → Fields
  normalized_subscription sub =
      let fs = sub.provider_fields in
      dict (
        ("identity", object (dict (identity_part fs)))
        ∷ ("status", object (dict (status_part sub)))
        ∷ ("plan", object (dict (plan_part fs)))
        ∷ ("customer", object (dict (customer_part fs)))
        ∷ ("network", object (dict (network_part fs)))
        ∷ ("hardware", object (dict (hardware_part fs)))
        ∷ ("services", object (dict (services_part fs)))
        ∷ ("limits", object (dict (limits_part fs)))
        ∷ ("dates", object (dict (dates_part fs)))
        ∷ ("custom_fields", object (custom_fields fs))
        ∷ [])

  -- `_to_out` of a subscription whose conversion does not raise
  unfoldable pub to_out : Subscription → SubscriptionOut
  unfolding detail_level
  to_out sub = record {
    subscription = sub;
    detail_level = detail_level sub.provider_fields;
    normalized = normalized_subscription sub;
  }

  -- `_to_out`, with what it raises
  unfoldable pub convert : Subscription → Result SubscriptionOut
  unfolding to_out
  convert sub = elim (python.fault sub) [ none ↦ ok (to_out sub) | some text ↦ err (other text) ]
