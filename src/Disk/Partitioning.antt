-- ===== src/Disk/Partitioning.antt =====
-- model/Disk.cpp: `partitionPublic`, `partitionPrivate` and `partitionMixed`. A command that is
-- executed is an event.
use android_system_vold.Common.{
  ℕ, ◌*◌, ◌/◌, ◌%◌, ◌^◌, Option, none, some, List, [], ◌∷◌, ◌++◌, Bool, true, false, ◌||◌,
  if◌then◌else◌, Text, codes, text_eq, ◌==◌, ltb, ℤ, pos, negsuc, to_string,
}
use android_system_vold.Common.Aborts.{Run, return, tell, ◌>>=◌, ◌>>◌}
use android_system_vold.Hex.{str_to_hex}
use android_system_vold.VolumeBase.{is_okay}
use android_system_vold.Disk.Outside.{Machine, Event, executed}
use android_system_vold.Disk.{Disk, destroy_all_volumes}
use android_system_vold.Disk.Metadata.{einval, eio}
use android_system_vold.Disk.Partitions.{
  Table, unknown, mbr, gpt, sgdisk, basic_data, android_expand, build_key_path, dump,
}

abbrev pub android_meta : Text
android_meta = codes "19A710A2-B3CA-11E4-B026-10604B889DCF"

abbrev pub is_mbr : Table → Bool
is_mbr mbr = true
is_mbr _ = false

module _ (machine : Machine) where
  -- The table that the first line `DISK mbr` or `DISK gpt` names, from the words of the lines.
  -- `strcmp` of a line that ends after DISK reads a null pointer: none.
  unfoldable pub find_table : List (List Text) → Option Table
  find_table [] = some unknown
  find_table ([] ∷ lines) = find_table lines
  find_table ((word ∷ []) ∷ lines) =
      let later = find_table lines in if text_eq word (codes "DISK") then none else later
  find_table ((word ∷ kind ∷ rest) ∷ lines) =
      let later = find_table lines in
      if text_eq word (codes "DISK")
      then (if text_eq kind (codes "mbr")
          then some mbr
          else (if text_eq kind (codes "gpt") then some gpt else later))
      else later

  unfoldable pub all_words : List Text → List (List Text)
  all_words [] = []
  all_words (line ∷ lines) = machine.words line ∷ all_words lines

  -- `ForkExecvp`, and the status that it gives.
  unfoldable pub run_command : List Text → Run Event ℤ
  run_command command = do tell (executed command ∷ []); return (machine.execute command).0

  abbrev pub zap_all : Disk → List Text
  zap_all d = sgdisk ∷ codes "--zap-all" ∷ d.dev_path ∷ []

  abbrev pub new_mbr : Disk → List Text
  new_mbr d =
      sgdisk
      ∷ codes "--new=0:0:-0"
      ∷ codes "--typecode=0:0c00"
      ∷ codes "--gpttombr=1"
      ∷ d.dev_path
      ∷ []

  -- The table that is there before: unknown where sgdisk fails.
  unfoldable pub table_before : Disk → Option Table
  unfolding find_table all_words
  table_before d =
      let (res, output) = machine.execute (dump machine d) in
      if is_okay res then find_table (all_words output) else some unknown

  unfoldable pub partition_public : Disk → Run Event (Disk × ℤ)
  unfolding destroy_all_volumes table_before run_command
  partition_public d = do
    gone ← destroy_all_volumes machine d
    let emptied = record gone { just_partitioned = true }
    tell (executed (dump machine d) ∷ [])
    elim (table_before emptied) [
      | none ↦ none
      | some table ↦ do
        let marked = record emptied { skip_change = is_mbr table || emptied.skip_change }
        _ ← run_command (zap_all marked)
        res ← run_command (new_mbr marked)
        return (marked, res)
    ]

  -- The options for the public partition, if one is asked for; none where the ratio is refused.
  unfoldable pub shared_options : ℕ → ℤ → Option (List Text)
  shared_options size (negsuc n) = some []
  shared_options size (pos ratio) =
      if ratio == 0
      then some []
      else (if ltb ratio 10 || ltb 90 ratio
          then none
          else some (
              (codes "--new=0:0:+"
                ++ to_string (size / 100 * ratio % 2 ^ 64 / 1024 / 1024)
                ++ codes "M")
              ∷ (codes "--typecode=0:" ++ basic_data)
              ∷ codes "--change-name=0:shared"
              ∷ []))

  abbrev pub private_options : Text → List Text
  private_options part_guid =
      codes "--new=0:0:+16M"
      ∷ (codes "--typecode=0:" ++ android_meta)
      ∷ codes "--change-name=0:android_meta"
      ∷ codes "--new=0:0:-0"
      ∷ (codes "--typecode=0:" ++ android_expand)
      ∷ (codes "--partition-guid=0:" ++ part_guid)
      ∷ codes "--change-name=0:android_expand"
      ∷ []

  -- The GUID of the private partition, whose key is written; none for -EIO.
  unfoldable pub new_partition_guid : Option Text
  unfolding str_to_hex
  new_partition_guid = elim machine.random_uuid [
    | none ↦ none
    | some raw ↦ elim machine.volume_key [
      | none ↦ none
      | some key ↦
          if machine.write_file (build_key_path (str_to_hex raw)) key
          then some (str_to_hex raw)
          else none
    ]
  ]

  unfoldable pub partition_mixed : ℤ → Disk → Run Event (Disk × ℤ)
  unfolding destroy_all_volumes run_command shared_options new_partition_guid
  partition_mixed ratio d = do
    gone ← destroy_all_volumes machine d
    let emptied = record gone { just_partitioned = true }
    _ ← run_command (zap_all emptied)
    elim new_partition_guid [
      | none ↦ return (emptied, eio)
      | some part_guid ↦ elim (shared_options emptied.size ratio) [
        | none ↦ return (emptied, einval)
        | some shared ↦ do
          res ←
              run_command (sgdisk ∷ (shared ++ private_options part_guid ++ emptied.dev_path ∷ []))
          return (emptied, res)
      ]
    ]

  unfoldable pub partition_private : Disk → Run Event (Disk × ℤ)
  unfolding partition_mixed
  partition_private d = partition_mixed (pos 0) d
