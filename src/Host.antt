-- ===== src/Host.antt =====
-- What the program takes from its host: paths, files, encodings. The standard library's path
-- functions are defined; files and encodings are parameters with the behaviour that Go documents.
pub mod Paths
pub mod Files
pub mod Codec
pub mod Viper
