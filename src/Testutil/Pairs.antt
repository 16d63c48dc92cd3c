-- ===== src/Testutil/Pairs.antt =====
-- `Cleanup` of testutil.go deletes the pairs of interfaces.
use wlt_traffic.Base.{◌≡◌, ap, ◌∙◌, Bool-cases, inl, inr, Option-cases, false, List, [], ◌∷◌, All}
use wlt_traffic.Storage.Types.{GoString}
use wlt_traffic.Testutil.Ip.{Ip, IsIp, Deletes, Links, has_name, delete_link}
use wlt_traffic.Testutil.Interfaces.{run_ip}
use wlt_traffic.Testutil.Harness.{VethPair, delete_pairs}

module _ (ip : Ip) (documented : IsIp ip) (gone : Deletes ip) where
  -- a deletion brings no interface
  deleted-absent :
      (name other : GoString) (l : Links)
      → has_name other l.names ≡ false
      → has_name other (run_ip ip (delete_link name) l).1.names ≡ false
  unfolding run_ip
  deleted-absent name other l h =
      elim (Option-cases (ip.run_command l.commands (delete_link name) l.names).0) [
        | inl good ↦ (documented.deletes l.commands name l.names good).1 other h
        | inr (x, failed) ↦
            ap (has_name other) (documented.fails l.commands (delete_link name) l.names x failed)
            ∙ h
      ]

  deleted-gone :
      (name : GoString) (l : Links) → has_name name (run_ip ip (delete_link name) l).1.names ≡ false
  unfolding run_ip
  deleted-gone name l = elim (Bool-cases (has_name name l.names)) [
    | inl there ↦
        (documented.deletes l.commands name l.names (gone l.commands name l.names there)).0
    | inr absent ↦ deleted-absent name name l absent
  ]

  delete_pairs-absent :
      (pairs : List VethPair) (other : GoString) (l : Links)
      → has_name other l.names ≡ false
      → has_name other (delete_pairs ip pairs l).names ≡ false
  unfolding delete_pairs
  delete_pairs-absent [] other l h = h
  delete_pairs-absent (pair ∷ pairs) other l h =
      delete_pairs-absent pairs other (run_ip ip (delete_link pair.host_name) l).1
        (deleted-absent pair.host_name other l h)

  -- If `ip` does what it documents, and an interface that is there can be deleted: after `Cleanup`
  -- the host's end of no pair is there.
  pub delete_pairs_lem :
      (pairs : List VethPair) (l : Links)
      → All (λ pair. has_name pair.host_name (delete_pairs ip pairs l).names ≡ false) pairs
  unfolding delete_pairs
  delete_pairs_lem [] l = tt
  delete_pairs_lem (pair ∷ pairs) l =
      let l' = (run_ip ip (delete_link pair.host_name) l).1 in
      (
        delete_pairs-absent pairs pair.host_name l' (deleted-gone pair.host_name l),
        delete_pairs_lem pairs l',
      )
