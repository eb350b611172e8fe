-- ===== src/PlatformTools/Install.antt =====
-- The stub module of sandbox/platform_tools.py on the disk.
use otari_sandbox_container.Base.{
  ℕ, ◌≡◌, refl, ap, ◌∙◌, Bool, true, false, none, some, if◌then◌else◌, Text, codes, ◌==◌, text_eq,
  arith,
}
use otari_sandbox_container.Base.Dict.{lookup, insert, erase, lookup-insert, lookup-erase}
use otari_sandbox_container.Utf8.Codec.{encode_chars, is_scalar_text}
use otari_sandbox_container.Sessions.{path_join, parent}
use otari_sandbox_container.Workspace.{
  Disk, Host, Exception, is_a_directory_error, Reply, ok, raise, ◌>>=◌, is_dir, make_parents,
  write_bytes, write_text,
}
use otari_sandbox_container.TextEditor.Confined.{make_parents-files}
use otari_sandbox_container.PlatformTools.Render.{
  StubConfig, Generated, source, value_error, generate_module_source,
}

-- `stub_dir / f"{STUB_MODULE_NAME}.py"`
abbrev pub stub_path : Text → Text
stub_path stub_dir = path_join stub_dir (codes "_platform_tools.py")

-- The entry itself in the directory that the stub directory resolves to: a link there is not followed.
abbrev pub entry_path : Host → Text → Text
entry_path host stub_dir = stub_path (host.realpath stub_dir)

-- `target.write_text(source, encoding="utf-8")`, which follows a link, and the path that is returned
abbrev written : Host → Text → Disk → Generated → Reply Text × Disk
written host target k (value_error message) = (raise (Exception.value_error message), k)
written host target k (source text) =
    let (r, k') = write_text host (host.realpath target) text k in ((r >>= λ u. ok target), k')

abbrev pub in_directory : Host → Text → Disk → Generated → Reply Disk → Reply Text × Disk
in_directory host target k generated (raise x) = (raise x, k)
in_directory host target k generated (ok k') = written host target k' generated

-- `install_stubs`: the directory is made before the source is generated.
unfoldable pub install_stubs :
    (ℕ → Bool) → (Text → Bool) → Host → StubConfig → Text → Disk → Reply Text × Disk
install_stubs printable is_keyword host config stub_dir k =
    in_directory host (stub_path stub_dir) k (generate_module_source printable is_keyword config)
      (make_parents host (entry_path host stub_dir) k)

-- `clear_stubs`: `unlink` does not follow a link.
unfoldable pub clear_stubs : Host → Text → Disk → Reply Unit × Disk
clear_stubs host stub_dir k =
    let entry = entry_path host stub_dir in
    if is_dir k entry
    then (raise (is_a_directory_error (host.os_message entry)), k)
    else (ok tt, record k { files = erase entry k.files })

abbrev with_module : Text → Text → Disk → Disk
with_module target text k = record k { files = insert target (encode_chars text) k.files }

installed :
    (printable : ℕ → Bool) (is_keyword : Text → Bool) (host : Host) (config : StubConfig)
    (stub_dir text : Text) (k k' : Disk)
    → generate_module_source printable is_keyword config ≡ source text
    → is_scalar_text text ≡ true
    → host.realpath (stub_path stub_dir) ≡ entry_path host stub_dir
    → make_parents host (entry_path host stub_dir) k ≡ ok k'
    → is_dir k' (entry_path host stub_dir) ≡ false
    → is_dir k' (parent (entry_path host stub_dir)) ≡ true
    → install_stubs printable is_keyword host config stub_dir k
      ≡ (ok (stub_path stub_dir), with_module (entry_path host stub_dir) text k')
unfolding install_stubs write_text write_bytes ◌>>=◌
installed printable is_keyword host config stub_dir text k k' gen scalar real made file dir =
    rw (gen, made, install_stubs) (rw (scalar, real, file, dir, write_text, write_bytes) refl)

cleared :
    (host : Host) (stub_dir : Text) (k : Disk)
    → is_dir k (entry_path host stub_dir) ≡ false
    → clear_stubs host stub_dir k
      ≡ (ok tt, record k { files = erase (entry_path host stub_dir) k.files })
unfolding clear_stubs
cleared host stub_dir k file = rw file refl

-- Where the directory can be made and written to, the path of the module resolves to its own entry in
-- that directory (it is not a link), and the source is generated and can be encoded, installation returns
-- the path of the module, whose entry holds the encoded source; every other file is as it was. A later
-- clearing succeeds and leaves no module, and again every other file as it was.
pub clear_stubs-install_stubs :
    (printable : ℕ → Bool) (is_keyword : Text → Bool) (host : Host) (config : StubConfig)
    (stub_dir text j : Text) (k k' : Disk)
    → generate_module_source printable is_keyword config ≡ source text
    → is_scalar_text text ≡ true
    → host.realpath (stub_path stub_dir) ≡ entry_path host stub_dir
    → make_parents host (entry_path host stub_dir) k ≡ ok k'
    → is_dir k' (entry_path host stub_dir) ≡ false
    → is_dir k' (parent (entry_path host stub_dir)) ≡ true
    → let (r, installed) = install_stubs printable is_keyword host config stub_dir k in
      let (r', cleared) = clear_stubs host stub_dir installed in
      let entry = entry_path host stub_dir in
      (r ≡ ok (stub_path stub_dir))
      × (lookup j installed.files
          ≡ (if entry == j then some (encode_chars text) else lookup j k.files))
      × (r' ≡ ok tt)
      × (lookup j cleared.files ≡ (if entry == j then none else lookup j k.files))
unfolding is_dir
clear_stubs-install_stubs printable is_keyword host config stub_dir text j k k' gen scalar real made
      file dir =
    let target = entry_path host stub_dir in
    let after = with_module target text k' in
    let first =
      installed printable is_keyword host config stub_dir text k k' gen scalar real made file dir in
    let second =
      ap (λ (z : Reply Text × Disk). clear_stubs host stub_dir z.1) first
      ∙ cleared host stub_dir after file in
    let present : lookup j after.files
        ≡ (if target == j then some (encode_chars text) else lookup j k.files) =
      ground (
        arith,
        lookup-insert j target (encode_chars text) k'.files,
        ap (lookup j) (make_parents-files host target k k' made),
      ) in
    let absent : lookup j (erase target after.files)
        ≡ (if target == j then none else lookup j k.files) =
      ground (arith, lookup-erase j target after.files, present) in
    (
      ap (λ (z : Reply Text × Disk). z.0) first,
      ap (λ (z : Reply Text × Disk). lookup j z.1.files) first ∙ present,
      ap (λ (z : Reply Unit × Disk). z.0) second,
      ap (λ (z : Reply Unit × Disk). lookup j z.1.files) second ∙ absent,
    )
