-- ===== src/Lib.antt =====
-- A model of jcu-dparm, a C++ library that manages ATA and NVMe drives, and what is proved of it.
--
-- The parts of the program, and how they meet. A client holds a drive handle
-- (src/drive_handle_base.cc), which sends commands through the virtual methods of a driver
-- (src/drive_driver_handle.h). From the features of a TCG discovery the handle makes a TCG device
-- (src/tcg/tcg_device_*.cc). A device executes command buffers (src/tcg/tcg_command_impl.cc),
-- polls for the response (src/tcg/tcg_response_impl.cc), and a session
-- (src/tcg/tcg_session_impl.cc) builds the commands and reads the tokens
-- (include/jcu-dparm/tcg/tcg_token.h) of the responses.
--
-- The files:
--   Common          tests, lists, bit operations and machine words over the native numbers, and
--                   `Outcome`: a value, `fault` for undefined behaviour, or `stuck` for fuel that
--                   has run out
--   Err             include/jcu-dparm/err.h
--   Ata             src/ata_utils.cc, the registers and the identify data of
--                   include/jcu-dparm/ata_types.h, and `tf_to_lba` of src/plat-linux/sgio.cc
--   Tcg/Types       include/jcu-dparm/tcg/tcg_types.h, src/tcg/tcg_constants.cc, src/tcg/tcg_utils.cc
--   Tcg/Command     src/tcg/tcg_command_impl.cc: the buffer is its header, the bytes written so
--                   far, and zeros up to 61440 bytes
--   Tcg/Token       include/jcu-dparm/tcg/tcg_token.h
--   Tcg/Response    src/tcg/tcg_response_impl.cc: the memory behind the aligned pointer
--   Tcg/RoundTrip   what a command writes against what a response reads
--   Tcg/Device      src/tcg/tcg_device_general.cc, tcg_device_enterprise.cc,
--                   tcg_device_opal_base.cc, tcg_device_opal_1.cc, tcg_device_opal_2.cc
--   Tcg/Session     src/tcg/tcg_session_impl.cc and tcgHashPassword of src/tcg/tcg_intl.cc
--   Tcg/Provision   revertTPer, the tables and getDefaultPassword of the device classes
--   Drive/Driver    src/drive_driver_handle.h as an interface
--   Drive/Identify, Drive/Security, Drive/LogPage, Drive/Discovery, Drive/Smart
--                   parseIdentifyDevice and afterOpen, doSecurityCommand, doNvmeGetLogPage,
--                   tcgDiscovery0 and getTcgDevice, and the SMART status of
--                   src/drive_handle_base.cc
--   Drive/Capacity  src/drive_handle_ata.cc
--   Drive/Sanitize  src/drive_handle_sanitize.cc
--   Intl            src/intl_utils.cc: the texts of an identify structure
--   Crypto          src/crypto: SHA-1 (Compress, Sha1), the hash interface and HMAC (Hash), PBKDF2
--                   (Pbkdf2), and the key of a password (Password)
--   Linux/Sgio, Linux/Apt, Linux/Taskfile, Linux/Inquiry
--                   src/plat-linux/sgio.cc, src/plat-linux/apt.cc, and
--                   src/plat-linux/drivers/sg_driver.cc
--   Linux/Nvme      src/plat-linux/drivers/nvme_driver.cc
--   Linux/Volumes   src/plat-linux/volume_finder.cc: the lines of the mount table are an argument
--   Linux/Sysfs     src/plat-linux/sysfs_utils.cc, and src/plat-linux/driver_base.cc (Write)
--   Drive/Factory   src/plat-linux/drive_factory.cc, and the handles that the factory of
--                   src/plat-win/drive_factory.cc shares with it
--   Win/Handle, Win/Ata, Win/Scsi, Win/Nvme, Win/Inquiry
--                   src/plat-win/drivers: the opening of a device file, ata_driver.cc,
--                   scsi_driver.cc, the drivers for NVMe (nvme_win_driver.cc,
--                   windows_nvme_driver.cc, samsung_nvme_driver.cc), and driver_utils.cc
--   Win/Factory, Win/Drives, Win/Volumes
--                   src/plat-win/drive_factory.cc and driver_base.cc, physical_drive_finder.cc,
--                   and volume_finder.cc; Win/Text has the decimal texts of their paths
--   Win/NativeMax   readNativeMaxSectors of src/drive_handle_ata.cc on the ATA driver
--   Nvme            src/nvme_utils.cc and the status codes of include/jcu-dparm/nvme_types.h
--   Tcg/Runs, Drive/Runs, Intl/Runs, Crypto/Runs, Linux/Runs, Linux/Sysfs/Runs, Win/Runs
--                   runs at concrete input
--
-- State is passed explicitly: a method takes the state of its object and that of the world behind
-- the driver, and returns both. The driver, the clock, the sleep, the random source and the system
-- calls are parameters; the hash objects that HMAC and PBKDF2 use are an interface with
-- laws, which SHA-1 fills. A `bool` that a method returns stands beside the new state.
--
-- Fuel and bounds. The parser of a response and the discovery take as much fuel as there are bytes
-- to go, since a round takes one byte, or four. The poll loop of `exec` has 402 rounds: its timeout
-- is 10 seconds and a round sleeps 25 milliseconds. The transfers of a log page have one round for
-- each 4096 bytes and one more. The padding of a command has three rounds. The padding of a digest
-- has at most 64 rounds, one for each byte of a block, and the loop over the whole blocks of an
-- update one for each 64 bytes and one more; the hashed keys of HMAC grow by at least a byte in a
-- round.
--
-- The climb of src/plat-linux/sysfs_utils.cc has the 20 rounds of its loop, and its search the two
-- levels of its caller. A decimal text takes as much fuel as its number.
--
-- Not modelled: the calls of the operating system themselves, whose answers are parameters, those
-- that ask for the capacity of a drive among them; the singletons that load a factory; what is
-- printed at the verbose levels; the fields of the structures of the standards that no code reads.
-- `init_hdio_taskfile` of src/plat-linux/sgio.cc has no caller. The tree of /sys stays the same
-- while it is searched, and no path reaches PATH_MAX. The open handles of Windows are a list, of
-- which closing takes one away. Two buffers never overlap, so no aliasing is modelled. The numbers
-- of type `int` that stand for lengths and counts are not negative.

pub mod Common
pub mod Err
pub mod Tcg
pub mod Ata
pub mod Drive
pub mod Intl
pub mod Crypto
pub mod Linux
pub mod Nvme
pub mod Win
