-- ===== src/Program/Metadata.antt =====
-- cmd/shaper/metadata_resolver.go: the instance, the compartment and the region, from the configuration
-- and the metadata service.
use oci_cpu_shaper.Base.{
  Bool, true, false, [], not, ◌&&◌, if◌then◌else◌, Option, none, some, Result, ok, err,
}
use oci_cpu_shaper.Base.Text.{Text, codes, text_eq, trim_space, is_empty}
use oci_cpu_shaper.Imds.Client.{Client}
use oci_cpu_shaper.Runtime.Settings.{RuntimeConfig}
use oci_cpu_shaper.Program.Options.{mode_noop}

abbrev pub offline_instance_fallback : Text
offline_instance_fallback = codes "offline-instance"

pub data MetadataError (E : Type 0) : Type 0 where
  imds_required : MetadataError E
  compartment_required : MetadataError E
  region_required : MetadataError E
  instance_lookup : E → MetadataError E
  compartment_lookup : E → MetadataError E
  region_lookup : E → MetadataError E
  canonical_region_lookup : E → MetadataError E

pub record OciMetadata : Type 0 where
  pub compartment_id : Text
  pub region : Text

module _ {E : Type 0} where
  unfoldable pub prefer_metadata_value :
      Text × Option E
      → Text
      → MetadataError E
      → (E → MetadataError E)
      → Result (MetadataError E) Text
  unfolding trim_space is_empty
  prefer_metadata_value (fetched, failure) override missing lookup =
      let trimmed_override = trim_space override in
      let trimmed_fetched = trim_space fetched in
      if not (is_empty trimmed_override)
      then ok trimmed_override
      else if not (is_empty trimmed_fetched)
      then ok trimmed_fetched
      else elim failure [ some e ↦ err (lookup e) | none ↦ err missing ]

  -- Where neither region has a text.
  unfoldable pub region_error : Option E → Option E → MetadataError E
  region_error canonical_failure (some e) = region_lookup e
  region_error (some e) none = canonical_region_lookup e
  region_error none none = region_required

  abbrev pub is_none : Option E → Bool
  is_none none = true
  is_none (some e) = false

  unfoldable pub prefer_canonical_region_value :
      Text × Option E → Text × Option E → Text → Result (MetadataError E) Text
  unfolding trim_space is_empty region_error
  prefer_canonical_region_value (canonical, canonical_failure) (legacy, legacy_failure) override =
      let trimmed_override = trim_space override in
      let trimmed_canonical = trim_space canonical in
      let trimmed_legacy = trim_space legacy in
      if not (is_empty trimmed_override)
      then ok trimmed_override
      else if not (is_empty trimmed_canonical) && is_none canonical_failure
      then ok trimmed_canonical
      else if not (is_empty trimmed_legacy) && is_none legacy_failure
      then ok trimmed_legacy
      else if not (is_empty trimmed_legacy)
      then ok trimmed_legacy
      else err (region_error canonical_failure legacy_failure)

-- What is found replaces what is configured, unless it is empty.
unfoldable pub with_metadata : {F : Type 0} → OciMetadata → RuntimeConfig F → RuntimeConfig F
unfolding is_empty
with_metadata metadata cfg =
    let oci = cfg.oci in
    record cfg {
      oci = record oci {
        compartment_id =
            if is_empty metadata.compartment_id
            then oci.compartment_id
            else metadata.compartment_id;
        region = if is_empty metadata.region then oci.region else metadata.region;
      };
    }

module _ {F E : Type 0} where
  unfoldable pub resolve_instance_id :
      RuntimeConfig F → Bool → Client F E → Result (MetadataError E) Text
  unfolding trim_space is_empty
  resolve_instance_id cfg offline client =
      let instance_id = trim_space cfg.oci.instance_id in
      if not (is_empty instance_id)
      then ok instance_id
      else if offline
      then ok offline_instance_fallback
      else let (fetched, failure) = client.instance_id in
        elim failure [ some e ↦ err (instance_lookup e) | none ↦ ok (trim_space fetched) ]

  -- The compartment, if it is not configured.
  unfoldable pub resolve_compartment : Text → Client F E → Result (MetadataError E) Text
  unfolding prefer_metadata_value is_empty
  resolve_compartment override client =
      if is_empty override
      then prefer_metadata_value client.compartment_id override compartment_required
          compartment_lookup
      else ok override

  unfoldable pub resolve_region : Text → Client F E → Result (MetadataError E) Text
  unfolding prefer_canonical_region_value is_empty
  resolve_region override client =
      if is_empty override
      then prefer_canonical_region_value client.canonical_region client.region override
      else ok override

  unfoldable pub resolve_compartment_and_region :
      RuntimeConfig F → Option (Client F E) → Result (MetadataError E) OciMetadata
  unfolding trim_space resolve_compartment resolve_region
  resolve_compartment_and_region cfg client =
      let compartment_override = trim_space cfg.oci.compartment_id in
      let region_override = trim_space cfg.oci.region in
      if cfg.oci.offline
      then ok (record { compartment_id = compartment_override; region = region_override })
      else elim client [
        | none ↦ err imds_required
        | some c ↦ elim (resolve_compartment compartment_override c) [
          | err e ↦ err e
          | ok compartment ↦ elim (resolve_region region_override c) [
            | err e ↦ err e
            | ok region ↦ ok (record { compartment_id = compartment; region = region })
          ]
        ]
      ]

  unfoldable pub prepare_run_metadata :
      RuntimeConfig F
      → Option (Client F E)
      → Text
      → Result (MetadataError E) (RuntimeConfig F × OciMetadata)
  unfolding text_eq trim_space resolve_compartment_and_region with_metadata
  prepare_run_metadata cfg client mode =
      if text_eq (trim_space mode) mode_noop
      then ok (cfg, record { compartment_id = []; region = [] })
      else elim (resolve_compartment_and_region cfg client) [
        | err e ↦ err e
        | ok metadata ↦ ok (with_metadata metadata cfg, metadata)
      ]
