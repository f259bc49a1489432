-- ===== src/Lib.antt =====
-- A verification library of vold, the volume daemon of Android.
--
-- The parts of the program and the files that model them:
-- - Checkpoint.cpp: Checkpoint/Commands (the commands that start, commit, abort and roll back a
--   checkpoint; the state is the file /metadata/vold/checkpoint and the global flags, what the
--   code asks of the device is the record System, what it does is a list of actions),
--   Checkpoint/Relocations (`relocate` and the reads of `relocatedRead`), Checkpoint/UsedSectors
--   (`checkCollision`, `markUsed`), Checkpoint/Crc (`crc32`), Checkpoint/Log (the log and the bytes
--   of the device), Checkpoint/Restore (`relocatedRead`, `restoreSector`, an entry of the log) and
--   Checkpoint/Restore/Rounds (the loops of `cp_restoreCheckpoint`). OrderedMap models std::map.
-- - model/VolumeBase.cpp and model/VolumeBase.h: VolumeBase. The virtual methods of the subclasses
--   are the record Methods. A CHECK that fails gives none, one of a destructor too: `may_drop` and
--   `may_erase` are the CHECKs of `~VolumeBase` and `~Disk`, asked where the code destroys a volume
--   or a disk and drops it. Of the disks that wait, which are never created, they are not asked.
-- - model/Disk.cpp and model/Disk.h: Disk (the disk and its volumes), Disk/Metadata
--   (`readMetadata`, `getMaxMinors`), Disk/Partitions (`readPartitions`, `create`, `destroy`),
--   Disk/Partitioning (`partitionPublic`, `partitionMixed`). The device, sgdisk and android-base
--   are the record Machine of Disk/Outside.
-- - VolumeManager.cpp: VolumeManager/Data (the state, and the record Host of what it asks),
--   VolumeManager/Disks (the disks in use and those that wait for the keyguard and for user 0),
--   VolumeManager/BlockEvents (`handleBlockEvent`), VolumeManager/Lookup (`findVolume`),
--   VolumeManager/Emulated (the emulated volumes of users) and VolumeManager/Requests (all that is
--   asked of the manager, with `mount`, `unmount` and `format` of VoldNativeService.cpp). It makes,
--   reads and destroys disks through Disk/Partitions, and a disk its volumes through VolumeBase.
--   The proofs that no CHECK aborts go the same way: VolumeBase/Safety, Disk/Checks, Disk/Safety
--   and Disk/Life, then VolumeManager/Changes, Found, Steady, Users, Blocks, Sessions, Owned
--   and Safety. Locked, Quiet, Pending, Ready and Waiting are about the disks that wait.
-- - IdleMaint.cpp: IdleMaint (the threads that maintain and that abort, and their flag, as
--   sequences of acts) and IdleMaint/Writes (`GetWriteAmount`).
-- - EncryptInplace.cpp: EncryptInplace (the I/O buffer: `InitFs`, `UpdateProgress`,
--   `EncryptPendingData`, `ProcessUsedBlock`), EncryptInplace/Ext4 (the bitmaps of the groups) and
--   EncryptInplace/Whole (f2fs, the whole device, `DoEncryptInPlace`, `EncryptInPlace`). The two
--   devices and the cipher are the record Device, and ext4_utils and f2fs_sparseblock give the
--   records Ext4 and F2fs. The proofs go from Blocks (bytes of blocks) through Buffer and Process
--   (the invariant of the buffer) to Encrypted, Works, Bitmaps, Groups, Distinct and
--   Used; Fits is about the buffer's end.
-- - FsCrypt.cpp: FsCrypt (the tables of keys, the directories of CE keys, the name of a new key),
--   FsCrypt/Keys (`fixate_user_ce_key`, `read_and_fixate_user_ce_key`), FsCrypt/Users (keys are
--   made, unlocked and locked), FsCrypt/Protection (`fscrypt_set_user_key_protection`, the deferred
--   fixation, `fscrypt_destroy_user_key`) and FsCrypt/Requests (all of these in any order). What
--   KeyStorage.cpp does to a key's directory as a whole, Keystore and the kernel are the record
--   Host, and the record IsVault says what is relied on. A path is the user and the name in the
--   user's directory. The proofs go from Entries and Kept (one directory) through Fixed, Names,
--   Pending, Stored, KeyToProtect, Safety and Others (one operation) to Requests; Newest is about the name of a new key and
--   Unlocks about the secrets that unlock.
-- - VoldNativeServiceValidation.cpp: Validation.
-- - Utils.cpp: Hex (`HexToStr`, `StrToHex`, `NormalizeHex`).
--
-- Common has the shared names, texts as lists of bytes and the runs that a CHECK may abort.
-- Numbers are native; sectors wrap at 2 ^ 64. There are two fuels: that of `decimal`, the digits of
-- a number n, which has n + 1 of it and at most n + 1 digits, and that of the outer loop of
-- `cp_restoreCheckpoint`, for which two turns are enough. `new_name_from` has
-- the bound of the loop itself. In Checkpoint a read or a write of the device succeeds as a whole or
-- fails, and `fsync` has no effect.
--
-- Not modelled: `cp_healthDaemon`; the remounting of storage and the application directories of
-- VolumeManager; the trimming of IdleMaint; the keys of volumes, the system-wide keys and the
-- preparation of directories of FsCrypt; the subclasses of VolumeBase, the file systems, KeyStorage,
-- netlink and the binder service, which are input and output of the kernel, of other services or of OpenSSL.
pub mod Common
pub mod OrderedMap
pub mod Checkpoint
pub mod VolumeBase
pub mod Validation
pub mod Hex
pub mod Disk
pub mod EncryptInplace
pub mod FsCrypt
pub mod VolumeManager
pub mod IdleMaint
