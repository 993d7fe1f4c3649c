-- ===== src/Store/Committed/Marking.antt =====
-- The manifest that `publish_results` writes last.
use hack_ef3da0e3_aib2bsaass.Base.{
  ℕ, ◌≡◌, refl, sym, ◌∙◌, subst, Bool, true, false, Option, none, some, arith, list_eq, leb, nat_eq,
}
use hack_ef3da0e3_aib2bsaass.Model.Text.{Text}
use hack_ef3da0e3_aib2bsaass.Model.Insights.{ResultBundleV1, valid_bundle}
use hack_ef3da0e3_aib2bsaass.Model.Meeting.{
  Meeting, MeetingRecord, ReadyManifest, valid_manifest, valid_record, valid_meeting,
}
use hack_ef3da0e3_aib2bsaass.Store.World.{
  Env, IsCodec, Artifact, Files, live, manifest_json, transcript_json, insights_json,
  transcript_txt, write, name_beq,
}
use hack_ef3da0e3_aib2bsaass.Store.Files.Laws.{View}
use hack_ef3da0e3_aib2bsaass.Store.Records.{parse_manifest, parse_record, keep_if}
use hack_ef3da0e3_aib2bsaass.Store.Records.Reads.{Stored, Marked}
use hack_ef3da0e3_aib2bsaass.Store.Publish.{original, manifest_of}
use hack_ef3da0e3_aib2bsaass.Store.Committed.{Holds, HoldsAll, IsCommitted, write-other, write_self}
use hack_ef3da0e3_aib2bsaass.Store.Committed.Staging.{With, all_three}

module _ ⦃env : Env⦄ where
  -- The folder is committed, and the manifest on disk is `m`, with this result hash.
  pub record IsPublished (f : Files) (o k : ℕ) (hash : Text) (m : ReadyManifest) : Type 0 where
    pub committed : IsCommitted f
    pub marked : Marked f o k m
    pub same_result : m.result_hash ≡ hash

  abbrev pub Published : ℕ → ℕ → Text → ReadyManifest → View
  Published o k hash m f s = IsPublished f o k hash m

  parse_own :
      (codec : IsCodec env) (m : ReadyManifest)
      → valid_manifest m ≡ true
      → parse_manifest (env.encode_manifest m) ≡ some m
  unfolding parse_manifest
  parse_own codec m v = rw codec.manifest_back (rw v)

  holds_write :
      (a : Artifact) (h : Text) (d : env.Bytes) (f : Files)
      → name_beq (live manifest_json) (live a) ≡ false
      → Holds f a h
      → Holds (write (live manifest_json) d f) a h
  holds_write a h d f c (x, p, q) = (x, write-other (live manifest_json) (live a) d f c ∙ p, q)

  -- Over its three originals the manifest commits.
  pub commit :
      (codec : IsCodec env) (o k n : ℕ) (b : ResultBundleV1) (f : Files)
      → valid_manifest (manifest_of o k n b) ≡ true
      → With b all_three f
      → IsPublished
          (write (live manifest_json) (env.encode_manifest (manifest_of o k n b)) f)
          o
          k
          b.result_hash
          (manifest_of o k n b)
  unfolding name_beq
  commit codec o k n b f v (text, (insights, (transcript, _))) =
      let m = manifest_of o k n b in
      let d = env.encode_manifest m in
      let at_name = write_self (live manifest_json) d f in
      record {
        committed = record {
          complete = λ x r p q.
              let same : x ≡ d = ground (arith, at_name) in
              let which : r ≡ m = ground (arith, parse_own codec m v) in
              subst (HoldsAll (write (live manifest_json) d f)) (sym which) (record {
                transcript = holds_write transcript_json _ d f refl transcript;
                insights = holds_write insights_json _ d f refl insights;
                text = holds_write transcript_txt _ d f refl text;
              });
        };
        marked = record {
          bytes = d;
          at_name = at_name;
          parsed = parse_own codec m v;
          owner = refl;
          meeting = refl;
        };
        same_result = refl;
      }

  pub keep_if-valid :
      {A : Type 0} (p : A → Bool) (o : Option A) (a : A) → keep_if p o ≡ some a → p a ≡ true
  keep_if-valid p none a h = cc
  keep_if-valid p (some x) a h = ground arith

  record_meeting :
      (r : MeetingRecord)
      → valid_record env.known_zone r ≡ true
      → valid_meeting env.known_zone r.meeting ≡ true
  unfolding valid_record
  record_meeting r h = ground arith

  meeting_attempt : (m : Meeting) → valid_meeting env.known_zone m ≡ true → leb 1 m.attempt ≡ true
  unfolding valid_meeting
  meeting_attempt m h = ground arith

  attempt_positive :
      (r : MeetingRecord) → valid_record env.known_zone r ≡ true → leb 1 r.meeting.attempt ≡ true
  attempt_positive r h = meeting_attempt r.meeting (record_meeting r h)

  pub Stored-attempt :
      (f : Files) (o k : ℕ) (r : MeetingRecord) → Stored f o k r → leb 1 r.meeting.attempt ≡ true
  unfolding parse_record
  Stored-attempt f o k r h =
      attempt_positive r
        (keep_if-valid (valid_record env.known_zone) (env.decode_record h.bytes) r h.parsed)

  pub manifest_of-valid :
      (codec : IsCodec env) (o k n : ℕ) (b : ResultBundleV1)
      → valid_bundle env.digest b ≡ true
      → leb 1 n ≡ true
      → valid_manifest (manifest_of o k n b) ≡ true
  unfolding valid_manifest valid_bundle
  manifest_of-valid codec o k n b v p =
      let t = codec.sha256_hex (original b transcript_json) in
      let i = codec.sha256_hex (original b insights_json) in
      let x = codec.sha256_hex (original b transcript_txt) in ground arith
