-- ===== src/Transfer.antt =====
-- src/core/FileTransferProtocol.h, FileTransferServer.cpp and FileTransferManager.cpp.
pub mod Hex
pub mod Files
pub mod Disk
pub mod Sessions
pub mod Upload
pub mod Download
pub mod Connection
pub mod Server
